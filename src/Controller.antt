-- ===== src/Controller.antt =====
-- src/Controller.c: the thread that starts and ends the extra validators. A process id is the bit
-- pattern of an `int`; what fork, kill and waitpid give is an argument.
pub mod Launcher
pub mod Config
pub mod Cleanup
pub mod Startup
pub mod Ending
pub mod Dump
pub mod Tests
use projeto_so.Base.{
  ℕ, zero, suc, ◌+◌, ◌-◌, ◌*◌, ◌^◌, ◌≡◌, refl, Bool, true, false, ◌&&◌, List, [], ◌∷◌, ltb, leb,
  ltb_int, ◌==◌, if◌then◌else◌,
}
use projeto_so.Floats.{round_half_even}

-- The largest scale s, from `s` down, at which k * 2 ^ s / d is below 2 ^ 24.
unfoldable pub ratio_scale : ℕ → ℕ → ℕ → ℕ
ratio_scale zero k d = 0
ratio_scale (suc s) k d =
    let less = ratio_scale s k d in if ltb (k * 2 ^ suc s) (d * 2 ^ 24) then suc s else less

-- The bits of (float)count / size, for a count and a size below 2 ^ 24, which a `float` holds exactly.
unfoldable pub occupancy : ℕ → ℕ → ℕ
unfolding ratio_scale
occupancy count size =
    let scale = ratio_scale 47 count size in
    if count == 0
    then 0
    else (150 - scale) * 2 ^ 23 + (round_half_even (count * 2 ^ scale) size - 2 ^ 23)

-- Comparisons of a `float` that is not negative with the `double`s 0.6, 0.8 and 0.4. Its bits are in the
-- order of the values, and the least `float`s above these numbers have the bits below.
unfoldable pub at_least_60 : ℕ → Bool
at_least_60 f = leb 0x3f19_999a f

unfoldable pub above_80 : ℕ → Bool
above_80 f = leb 0x3f4c_cccd f

unfoldable pub below_40 : ℕ → Bool
below_40 f = ltb f 0x3ecc_cccd

-- The array validators: 0 where there is no process.
pub record Children : Type 0 where
  pub second : ℕ
  pub third : ℕ

-- What the system gives for one of the two: the result of fork, whether kill succeeds, and whether each
-- of the two calls of waitpid finds that the process has ended.
pub record Events : Type 0 where
  pub forked : ℕ
  pub killed : Bool
  pub ended : Bool
  pub reaped : Bool

unfoldable pub launch : Events → ℕ → ℕ
launch e pid = if pid == 0 then e.forked else pid

-- The body of the loop that ends the extra validators.
unfoldable pub terminate : Events → ℕ → ℕ
terminate e pid = if ltb_int 0 pid && (e.killed && e.ended) then 0 else pid

-- The body of the loop that waits for zombies.
unfoldable pub reap : Events → ℕ → ℕ
reap e pid = if ltb_int 0 pid && e.reaped then 0 else pid

unfoldable pub adjust : ℕ → Events → Events → Children → Children
adjust f e2 e3 c =
    if at_least_60 f
    then record {
      second = launch e2 c.second;
      third = if above_80 f then launch e3 c.third else c.third;
    }
    else if below_40 f
    then record { second = reap e2 (terminate e2 c.second); third = reap e3 (terminate e3 c.third) }
    else c

-- What a round of the thread sees: the counts of the ledger and of the pool, and the events.
pub record Moment : Type 0 where
  pub ledger_count : ℕ
  pub pool_count : ℕ
  pub for_second : Events
  pub for_third : Events

-- The loop, over the rounds until the ledger has all its blocks, when the thread ends the simulation.
unfoldable pub launch_validators : ℕ → ℕ → List Moment → Children → Children
launch_validators blockchain_blocks pool_size [] c = c
launch_validators blockchain_blocks pool_size (m ∷ ms) c =
    let next = adjust (occupancy m.pool_count pool_size) m.for_second m.for_third c in
    let rest = launch_validators blockchain_blocks pool_size ms next in
    if leb blockchain_blocks m.ledger_count then c else rest
