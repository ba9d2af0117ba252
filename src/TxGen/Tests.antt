-- ===== src/TxGen/Tests.antt =====
-- Tests and examples for src/txGen.c.
use Prim.Native.Nat.{max}
use projeto_so.Base.{◌≤◌, ◌<◌, ◌≡◌, refl, [], ◌∷◌, arith, codes}
use projeto_so.Libc.{scan_int, scan_digits}
use projeto_so.Base.{c_str}
use projeto_so.TxGen.{
  World, continues, generate_round, refused, bad_reward, bad_sleep_time, usage, accepted,
  parse_arguments,
}
use projeto_so.TxGen.Rounds.{Added, generate_round_lem}
use projeto_so.Samples.{pool_of_one, pool_of_one-IsPool, calm_surroundings, new_generator}

arguments :
    (parse_arguments (codes "txgen" ∷ codes "2" ∷ codes "500" ∷ []) ≡ accepted 2 500)
    × (parse_arguments (codes "txgen" ∷ codes "4" ∷ codes "500" ∷ []) ≡ refused bad_reward)
    × (parse_arguments (codes "txgen" ∷ codes "2" ∷ codes "199" ∷ []) ≡ refused bad_sleep_time)
    × (parse_arguments (codes "txgen" ∷ codes "2" ∷ []) ≡ refused usage)
unfolding parse_arguments c_str scan_int scan_digits
arguments = (refl, refl, refl, refl)

abbrev first_world : World
first_world = record { generator = new_generator; pool = pool_of_one; minerwork = 0 }

generate_round_example :
    (w' : World) × (generate_round 3 2 1 calm_surroundings first_world ≡ continues w')
    × (pool_of_one.count < pool_of_one.size
        → Added calm_surroundings 1 new_generator pool_of_one w'.pool
          × (2 ≤ w'.pool.count → w'.minerwork ≡ max 3 0))
    × (pool_of_one.count ≡ pool_of_one.size → w'.pool ≡ pool_of_one)
    × (w'.pool.count < 2 → w'.minerwork ≡ 0)
generate_round_example =
    generate_round_lem 3 2 1 calm_surroundings first_world pool_of_one-IsPool (omega arith)
      (omega arith) (omega arith) refl refl
