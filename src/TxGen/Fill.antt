-- ===== src/TxGen/Fill.antt =====
-- The loop of src/txGen.c over the slots of the pool.
use projeto_so.Base.{
  ◌≡◌, ◌≢◌, refl, ap, ◌⊎◌, inl, inr, List, [], ◌∷◌, ◌++◌, Option, none, some, arith, ◌==◌,
  Bool-cases,
}
use projeto_so.Chain.{PendingTransaction}
use projeto_so.TxGen.{fill_first}

abbrev pub AllFilled : List PendingTransaction → Type 0
AllFilled [] = Unit {0}
AllFilled (s ∷ slots) = (s.filled ≢ 0) × AllFilled slots

-- Either every slot is taken, or the new transaction stands in the first free one and every other
-- slot is as it was.
abbrev pub Fills :
    PendingTransaction → List PendingTransaction → Option (List PendingTransaction) → Type 0
Fills new slots result =
    (AllFilled slots × (result ≡ none))
    ⊎ ((before : List PendingTransaction) × (free : PendingTransaction) × (behind : List
          PendingTransaction)
        × AllFilled before
        × (free.filled ≡ 0)
        × (slots ≡ before ++ free ∷ behind)
        × (result ≡ some (before ++ new ∷ behind)))

Fills-cons :
    (new s : PendingTransaction) (slots : List PendingTransaction)
    → s.filled ≢ 0
    → Fills new slots (fill_first new slots)
    → Fills new
        (s ∷ slots)
        (elim (fill_first new slots) [ none ↦ none | some rest ↦ some (s ∷ rest) ])
Fills-cons new s slots h (inl (all, e)) = inl ((h, all), rw e)
Fills-cons new s slots h (inr (before, free, behind, all, empty, split, e)) =
    inr (s ∷ before, free, behind, (h, all), empty, ap (◌∷◌ s) split, rw e)

pub fill_first-Fills :
    (new : PendingTransaction) (slots : List PendingTransaction)
    → Fills new slots (fill_first new slots)
unfolding fill_first
fill_first-Fills new [] = inl (tt, refl)
fill_first-Fills new (s ∷ slots) = elim (Bool-cases (s.filled == 0)) [
  | inl free ↦ rw free (inr ([], s, slots, tt, ground arith, refl, refl))
  | inr taken ↦ rw taken (Fills-cons new s slots (ground arith) (fill_first-Fills new slots))
]
