-- ===== src/Spec/Pending.antt =====
-- Lists of ids up to order.
use mathlib.Core.Quot
use mathlib.Core.Quot.{Quot, Quot-set}
use native.Mathlib.Nat.{ℕ_set}
use projeto_so.Base.{ℕ, ◌+◌, ◌-◌, ◌≤◌, ◌≡◌, ap, List, [], ◌∷◌, arith, if◌then◌else◌, bytes_eq}

-- How often `a` is listed.
abbrev pub count : List ℕ → List (List ℕ) → ℕ
count a [] = 0
count a (x ∷ xs) = (if bytes_eq x a then 1 else 0) + count a xs

abbrev pub SameIds : List (List ℕ) → List (List ℕ) → Type 0
SameIds xs ys = (a : List ℕ) → count a xs ≡ count a ys

abbrev pub Bag : Type 0
Bag = Quot SameIds

abbrev pub of_list : List (List ℕ) → Bag
of_list = Quot.mk

pub SameIds-cons : (x : List ℕ) (xs ys : List (List ℕ)) → SameIds xs ys → SameIds (x ∷ xs) (x ∷ ys)
SameIds-cons x xs ys h a = omega (arith, h a)

unfoldable pub put : List ℕ → Bag → Bag
put x = Quot.lift Quot-set (λ xs. of_list (x ∷ xs)) (λ xs ys h. Quot.sound (SameIds-cons x xs ys h))

unfoldable pub copies_of : List ℕ → Bag → ℕ
copies_of a = Quot.lift ℕ_set (count a) (λ xs ys h. h a)

-- Bags are told apart by how often they hold an id.
pub of_list-exact : (xs ys : List (List ℕ)) → of_list xs ≡ of_list ys → SameIds xs ys
unfolding copies_of
of_list-exact xs ys e a = ap (copies_of a) e

-- All ids that are wanted are there, and each is taken as often as it is wanted, or as it is there.
pub record Takes (wanted : List (List ℕ)) (before after : Bag) : Type 0 where
  pub there : (a : List ℕ) → 1 ≤ count a wanted → 1 ≤ copies_of a before
  pub left : (a : List ℕ) → copies_of a after ≡ copies_of a before - count a wanted
