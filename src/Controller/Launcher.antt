-- ===== src/Controller/Launcher.antt =====
-- What becomes of the extra validators of src/Controller.c.
use projeto_so.Base.{
  ℕ, ◌≡◌, refl, ◌⊎◌, inl, inr, true, ◌&&◌, ◌||◌, List, [], ◌∷◌, arith, Bool-cases, ltb_int, leb,
  minus_one, ◌==◌,
}
use projeto_so.Controller.{
  occupancy, at_least_60, above_80, below_40, Children, Events, launch, terminate, reap, adjust,
  Moment, launch_validators,
}

-- A process id is kept, or it is a new process where there was none, or the process has ended and was
-- waited for.
abbrev pub Accounted : Events → ℕ → ℕ → Type 0
Accounted e old new =
    (new ≡ old)
    ⊎ (((old ≡ 0) × (new ≡ e.forked))
        ⊎ ((ltb_int 0 old ≡ true) × (new ≡ 0) × ((e.ended || e.reaped) ≡ true)))

launch-Accounted : (e : Events) (pid : ℕ) → Accounted e pid (launch e pid)
unfolding launch
launch-Accounted e pid = elim (Bool-cases (pid == 0)) [
  | inl free ↦ rw free (inr (inl (ground arith, refl)))
  | inr taken ↦ rw taken (inl refl)
]

reap-Accounted : (e : Events) (pid : ℕ) → Accounted e pid (reap e pid)
unfolding reap
reap-Accounted e pid = elim (Bool-cases (ltb_int 0 pid && e.reaped)) [
  | inl gone ↦ rw gone (inr (inr (ground arith, refl, ground arith)))
  | inr stays ↦ rw stays (inl refl)
]

reap-zero : (e : Events) → reap e 0 ≡ 0
unfolding reap
reap-zero e = refl

terminate-Accounted : (e : Events) (pid : ℕ) → Accounted e pid (reap e (terminate e pid))
unfolding terminate
terminate-Accounted e pid = elim (Bool-cases (ltb_int 0 pid && (e.killed && e.ended))) [
  | inl gone ↦ rw gone (inr (inr (ground arith, reap-zero e, ground arith)))
  | inr stays ↦ rw stays (reap-Accounted e pid)
]

-- In a round of the launcher no validator that runs is forgotten: its process id stays in the array
-- until waitpid has told that it ended, and a new one only takes an empty place.
pub adjust-Accounted :
    (f : ℕ) (e2 e3 : Events) (c : Children)
    → Accounted e2 c.second (adjust f e2 e3 c).second
      × Accounted e3 c.third (adjust f e2 e3 c).third
unfolding adjust
adjust-Accounted f e2 e3 c = elim (Bool-cases (at_least_60 f)) [
  | inl busy ↦ elim (Bool-cases (above_80 f)) [
    | inl full ↦ simp (busy, full) (launch-Accounted e2 c.second, launch-Accounted e3 c.third)
    | inr room ↦ simp (busy, room) (launch-Accounted e2 c.second, inl refl)
  ]
  | inr calm ↦ elim (Bool-cases (below_40 f)) [
    | inl quiet ↦
        simp (calm, quiet) (terminate-Accounted e2 c.second, terminate-Accounted e3 c.third)
    | inr between ↦ simp (calm, between) (inl refl, inl refl)
  ]
]

adjust-failed :
    (f : ℕ) (e2 e3 : Events) (c : Children)
    → c.second ≡ minus_one
    → (adjust f e2 e3 c).second ≡ minus_one
unfolding adjust launch terminate reap
adjust-failed f e2 e3 c e = ground arith

-- Once a fork that failed has left -1 as the second validator's process id, it stays there whatever
-- rounds follow.
launch_validators-failed :
    (blockchain_blocks pool_size : ℕ) (ms : List Moment) (c : Children)
    → c.second ≡ minus_one
    → (launch_validators blockchain_blocks pool_size ms c).second ≡ minus_one
unfolding launch_validators
launch_validators-failed blockchain_blocks pool_size [] c e = e
launch_validators-failed blockchain_blocks pool_size (m ∷ ms) c e =
    elim (Bool-cases (leb blockchain_blocks m.ledger_count)) [
      | inl over ↦ rw over e
      | inr goes_on ↦ rw goes_on (
          launch_validators-failed blockchain_blocks pool_size ms _
            (adjust-failed (occupancy m.pool_count pool_size) m.for_second m.for_third c e))
    ]
