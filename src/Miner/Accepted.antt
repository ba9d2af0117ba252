-- ===== src/Miner/Accepted.antt =====
-- The selection of a miner thread of src/Miner.c under the check of src/Validator.c.
use projeto_so.Base.{
  ℕ, zero, suc, ◌<◌, ◌≡◌, refl, sym, ap, subst, ◌∙◌, ◌⊎◌, inl, inr, true, false, List, [], ◌∷◌,
  some, some_inj, arith, Bool-cases, length, get_elem?, take, c_str, str_eq, bytes_eq,
  bytes_eq_refl, bytes_eq→eq,
}
use projeto_so.Libc.{strncpy}
use projeto_so.Libc.Copy.{c_str-strncpy, c_str-take_all}
use projeto_so.Floats.{is_nan, float_eq}
use projeto_so.Chain.{Transaction, PendingTransaction, tx_id_len}
use projeto_so.Validator.Transactions.{tx_compare, found, look_up, verify_transactions}
use projeto_so.Validator.Transactions.Finding.{
  NoSlot, FirstSlot, FirstSlot-cons, FirstSlot→found, verify_transactions-cons,
}
use projeto_so.Miner.Selection.{copy_transaction, AllCopies, AllTerminated, terminated_at}

-- No two filled slots have the same id.
abbrev pub UniqueIds : List PendingTransaction → Type 0
UniqueIds [] = Unit {0}
UniqueIds (s ∷ slots) = ((s.filled ≡ 0) ⊎ NoSlot s.tx slots) × UniqueIds slots

-- No value is a NaN.
abbrev pub AllNumbers : List PendingTransaction → Type 0
AllNumbers [] = Unit {0}
AllNumbers (s ∷ slots) = (is_nan s.tx.value ≡ false) × AllNumbers slots

number_at :
    (slots : List PendingTransaction) (i : ℕ) (s : PendingTransaction)
    → AllNumbers slots
    → get_elem? slots i ≡ some s
    → is_nan s.tx.value ≡ false
number_at [] i s all e = cc
number_at (x ∷ slots) zero s all e =
    subst (λ (y : PendingTransaction). is_nan y.tx.value ≡ false) (some_inj e) all.0
number_at (x ∷ slots) (suc i) s all e = number_at slots i s all.1 e

NoSlot-get_elem :
    (t : Transaction) (slots : List PendingTransaction) (i : ℕ) (s : PendingTransaction)
    → NoSlot t slots
    → get_elem? slots i ≡ some s
    → s.filled ≡ 1
    → str_eq t.tx_id s.tx.tx_id ≡ false
NoSlot-get_elem t [] i s none_there e one = absurd (cc e)
NoSlot-get_elem t (x ∷ slots) zero s none_there e one =
    let same : x ≡ s = some_inj e in
    elim none_there.0 [
      | inl free ↦ absurd (omega (arith, ap (λ (y : PendingTransaction). y.filled) same, free))
      | inr other ↦ subst (λ (y : PendingTransaction). str_eq t.tx_id y.tx.tx_id ≡ false) same other
    ]
NoSlot-get_elem t (x ∷ slots) (suc i) s none_there e one =
    NoSlot-get_elem t slots i s none_there.1 e one

str_eq_sym : (a b : List ℕ) → str_eq a b ≡ false → str_eq b a ≡ false
unfolding str_eq
str_eq_sym a b h = elim (Bool-cases (str_eq b a)) [
  | inr other ↦ other
  | inl same ↦
      let e : c_str b ≡ c_str a = bytes_eq→eq (c_str b) (c_str a) same in
      cc (h, subst (λ x. bytes_eq (c_str a) x ≡ true) (sym e) (bytes_eq_refl (c_str a)))
]

-- Strings compare as before when one is copied.
str_eq-copy :
    (a b : List ℕ)
    → length (c_str (take tx_id_len a)) < tx_id_len
    → str_eq (strncpy tx_id_len a) b ≡ str_eq a b
unfolding str_eq
str_eq-copy a b h =
    ap (λ x. bytes_eq x (c_str b)) (c_str-strncpy tx_id_len a ∙ c_str-take_all tx_id_len a h)

str_eq_refl : (a : List ℕ) → str_eq a a ≡ true
unfolding str_eq
str_eq_refl a = bytes_eq_refl (c_str a)

tx_compare-copy :
    (t : Transaction)
    → length (c_str (take tx_id_len t.tx_id)) < tx_id_len
    → is_nan t.value ≡ false
    → tx_compare (some (copy_transaction t)) (some t) ≡ true
unfolding tx_compare float_eq
tx_compare-copy t ended number =
    ground (arith, str_eq-copy t.tx_id t.tx_id ended, str_eq_refl t.tx_id)

-- The copy of a slot's transaction is found in that slot.
copy-FirstSlot :
    (slots : List PendingTransaction) (i : ℕ) (s : PendingTransaction)
    → UniqueIds slots
    → s.filled ≡ 1
    → length (c_str (take tx_id_len s.tx.tx_id)) < tx_id_len
    → get_elem? slots i ≡ some s
    → (f : FirstSlot (copy_transaction s.tx) slots) × (f.slot ≡ s)
unfolding FirstSlot-cons
copy-FirstSlot [] i s unique one ended e = absurd (cc e)
copy-FirstSlot (x ∷ slots) zero s unique one ended e = (
  record {
    before = [];
    slot = s;
    behind = slots;
    split = ap (λ y. y ∷ slots) (some_inj e);
    none_before = tt;
    taken = omega (arith, one);
    same_id = str_eq-copy s.tx.tx_id s.tx.tx_id ended ∙ str_eq_refl s.tx.tx_id;
  },
  refl,
)
copy-FirstSlot (x ∷ slots) (suc i) s unique one ended e =
    let (f, same) = copy-FirstSlot slots i s unique.1 one ended e in
    (FirstSlot-cons (copy_transaction s.tx) x slots (passed unique.0) f, same)
  where
    passed :
        (x.filled ≡ 0) ⊎ NoSlot x.tx slots
        → (x.filled ≡ 0) ⊎ (str_eq (copy_transaction s.tx).tx_id x.tx.tx_id ≡ false)
    passed (inl free) = inl free
    passed (inr other) = inr (
        str_eq-copy s.tx.tx_id x.tx.tx_id ended
        ∙ str_eq_sym x.tx.tx_id s.tx.tx_id (NoSlot-get_elem x.tx slots i s other e one))

-- As long as the pool is as the miner saw it, the validator's check of the transactions passes
-- every selection of copies of filled slots, if no two filled slots have the same id, no value is a
-- NaN and the ids end within their buffers.
pub AllCopies-verify :
    (slots : List PendingTransaction) (ts : List Transaction)
    → UniqueIds slots
    → AllNumbers slots
    → AllTerminated slots
    → AllCopies slots ts
    → verify_transactions ts slots ≡ true
unfolding verify_transactions
AllCopies-verify slots [] unique numbers ended all = refl
AllCopies-verify slots (t ∷ ts) unique numbers ended (c, all) =
    let short = terminated_at slots c.index c.slot ended c.there in
    let number = number_at slots c.index c.slot numbers c.there in
    let (f, same) = copy-FirstSlot slots c.index c.slot unique c.filled short c.there in
    let equal : tx_compare (some (copy_transaction c.slot.tx)) (some f.slot.tx) ≡ true =
      subst
        (λ (y : PendingTransaction).
          tx_compare (some (copy_transaction c.slot.tx)) (some y.tx) ≡ true)
        (sym same) (tx_compare-copy c.slot.tx short number) in
    let here : look_up t slots ≡ found =
      ap (λ u. look_up u slots) c.copy
      ∙ FirstSlot→found (copy_transaction c.slot.tx) slots f equal in
    verify_transactions-cons t ts slots here ∙ AllCopies-verify slots ts unique numbers ended all
