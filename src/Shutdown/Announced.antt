-- ===== src/Shutdown/Announced.antt =====
-- The waits of cleanup of src/Controller.c for the miner.
use projeto_so.Base.{
  ℕ, suc, ◌+◌, ◌≤◌, ◌≡◌, refl, Bool, true, false, List, [], ◌∷◌, ◌++◌, arith, ltb_int,
}
use projeto_so.Controller.Cleanup.{
  Call, wait_semaphore, pipeclosed, Process, when, in_order, stop_children, release, cleanup,
}

-- The waits for the miner.
unfoldable pub waits : List Call → ℕ
waits [] = 0
waits (wait_semaphore pipeclosed ∷ calls) = suc (waits calls)
waits (_ ∷ calls) = waits calls

waits-append : (xs ys : List Call) → waits (xs ++ ys) ≡ waits xs + waits ys
unfolding waits
waits-append [] ys = omega arith
waits-append (wait_semaphore pipeclosed ∷ xs) ys = omega (arith, waits-append xs ys)
waits-append (_ ∷ xs) ys = waits-append xs ys

-- The sum over lists of calls.
abbrev sum_waits : List (List Call) → ℕ
sum_waits [] = 0
sum_waits (xs ∷ rest) = waits xs + sum_waits rest

waits-in_order : (xss : List (List Call)) → waits (in_order xss) ≡ sum_waits xss
unfolding waits in_order
waits-in_order [] = refl
waits-in_order (xs ∷ rest) = omega (arith, waits-append xs (in_order rest), waits-in_order rest)

at_least : (xss : List (List Call)) (k : ℕ) → k ≤ sum_waits xss → k ≤ waits (in_order xss)
at_least xss k h = omega (arith, waits-in_order xss, h)

waits_of_validator :
    (fails : ℕ → Bool) (p : Process)
    → ltb_int 0 p.validator_pid ≡ true
    → 1 ≤ waits (stop_children fails p)
unfolding waits stop_children when
waits_of_validator fails p runs = rw runs (at_least _ 1 (omega arith))

-- The first cleanup waits for the miner, where a validator runs.
pub waits_of_cleanup :
    (fails : ℕ → Bool) (p : Process)
    → p.cleanup_called ≡ false
    → ltb_int 0 p.validator_pid ≡ true
    → 1 ≤ waits (cleanup fails p).0
unfolding waits cleanup release
waits_of_cleanup fails p first runs =
    simp first (at_least _ 1 (omega (arith, waits_of_validator fails p runs)))
