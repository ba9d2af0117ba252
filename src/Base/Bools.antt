-- ===== src/Base/Bools.antt =====
-- Conjunctions of tests, and the results of partial steps that a test guards.
use mathlib.Core.Path.{◌≡◌, refl}
use mathlib.Core.Logic.{◌⊎◌, inl, inr}
use mathlib.Core.Bool.{Bool, true, false, ◌&&◌}
use mathlib.Core.Option.{Option, none, some}
use projeto_so.Base.Tests.{if◌then◌else◌}
use projeto_so.Base.Lists.{some_inj}

pub and_split : (a b : Bool) → (a && b) ≡ true → (a ≡ true) × (b ≡ true)
and_split true b h = (refl, h)
and_split false b h = cc h

pub and_join : (a b : Bool) → a ≡ true → b ≡ true → (a && b) ≡ true
and_join true b e f = f
and_join false b e f = e

module _ {ℓ} {A : Type ℓ} where
  pub some_if : (b : Bool) {x t : A} → (if b then some x else none) ≡ some t → (b ≡ true) × (x ≡ t)
  some_if true e = (refl, some_inj e)
  some_if false e = cc e

  pub either_if :
      (b : Bool) {o : Option A} {y t : A}
      → (if b then o else some y) ≡ some t
      → ((b ≡ true) × (o ≡ some t)) ⊎ ((b ≡ false) × (y ≡ t))
  either_if true e = inl (refl, e)
  either_if false e = inr (refl, some_inj e)
