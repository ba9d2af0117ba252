-- ===== src/Validator/Transactions/Removal.antt =====
-- What the removal of a block's transactions and the aging do to the pool.
use projeto_so.Base.{
  ℕ, ◌+◌, ◌≡◌, ◌≢◌, refl, sym, ap, subst, ◌∙◌, inl, inr, true, false, List, [], ◌∷◌, ◌++◌, none,
  some, map, arith, Option-cases, length, length-map, str_eq, c_str, bytes_eq→eq, bytes_eq_refl,
  bytes_eq,
}
use projeto_so.Chain.{Transaction, PendingTransaction, TransactionPool}
use projeto_so.Pool.{filled_count, filled_count-le, IsPool}
use projeto_so.Validator.Transactions.{
  look_up, free_slot, remove_transaction, remove_transactions, age_slot, age_transactions,
}
use projeto_so.Validator.Transactions.Finding.{NoSlot, FirstSlot}

abbrev pub freed : PendingTransaction → PendingTransaction
freed s = record s { filled = 0 }

free_slot-append :
    (t : Transaction) (before : List PendingTransaction) (s : PendingTransaction)
    (slots : List PendingTransaction)
    → NoSlot t before
    → s.filled ≢ 0
    → str_eq t.tx_id s.tx.tx_id ≡ true
    → free_slot t (before ++ s ∷ slots) ≡ some (before ++ freed s ∷ slots)
unfolding free_slot
free_slot-append t [] s slots n taken same = ground arith
free_slot-append t (b ∷ before) s slots n taken same =
    ground (arith, free_slot-append t before s slots n.1 taken same)

pub free_slot-FirstSlot :
    (t : Transaction) (slots : List PendingTransaction) (f : FirstSlot t slots)
    → free_slot t slots ≡ some (f.before ++ freed f.slot ∷ f.behind)
free_slot-FirstSlot t slots f =
    ap (free_slot t) f.split
    ∙ free_slot-append t f.before f.slot f.behind f.none_before f.taken f.same_id

pub free_slot-NoSlot :
    (t : Transaction) (slots : List PendingTransaction) → NoSlot t slots → free_slot t slots ≡ none
unfolding free_slot
free_slot-NoSlot t [] n = refl
free_slot-NoSlot t (s ∷ slots) n = ground (arith, free_slot-NoSlot t slots n.1)

-- A slot that is freed was filled: the count of filled slots falls by one, the length stays.
pub free_slot-filled_count :
    (t : Transaction) (slots : List PendingTransaction) {slots' : List PendingTransaction}
    → free_slot t slots ≡ some slots'
    → (filled_count slots' + 1 ≡ filled_count slots) × (length slots' ≡ length slots)
unfolding free_slot filled_count
free_slot-filled_count t [] h = cc
free_slot-filled_count t (s ∷ slots) {slots'} h = elim (Option-cases (free_slot t slots)) [
  | inl e ↦ ground (arith, e)
  | inr (rest, e) ↦ ground (arith, e, free_slot-filled_count t slots e)
]

remove_transaction-IsPool :
    (t : Transaction) (p : TransactionPool) → IsPool p → IsPool (remove_transaction t p)
unfolding remove_transaction
remove_transaction-IsPool t p v = elim (Option-cases (free_slot t p.transactions)) [
  | inl e ↦ rw (e, remove_transaction) v
  | inr (slots, e) ↦
      let (fewer, same) = free_slot-filled_count t p.transactions e in
      let some_filled = filled_count-le p.transactions in
      rw (e, remove_transaction)
        (record {
          slots = omega (arith, same, v.slots);
          counted = omega (arith, fewer, v.slots, v.counted, v.small);
          small = v.small;
        })
]

pub remove_transactions-IsPool :
    (ts : List Transaction) (p : TransactionPool) → IsPool p → IsPool (remove_transactions ts p)
unfolding remove_transactions
remove_transactions-IsPool [] p v = v
remove_transactions-IsPool (t ∷ ts) p v =
    remove_transactions-IsPool ts (remove_transaction t p) (remove_transaction-IsPool t p v)

filled_count-age :
    (slots : List PendingTransaction) → filled_count (map age_slot slots) ≡ filled_count slots
unfolding filled_count age_slot
filled_count-age [] = refl
filled_count-age (s ∷ slots) = ground (arith, filled_count-age slots)

pub age_transactions-IsPool : (p : TransactionPool) → IsPool p → IsPool (age_transactions p)
unfolding age_transactions
age_transactions-IsPool p v = record {
  slots = length-map p.transactions age_slot ∙ v.slots;
  counted = v.counted ∙ sym (filled_count-age p.transactions);
  small = v.small;
}

str_eq_join : (a b c : List ℕ) → str_eq a c ≡ true → str_eq b c ≡ true → str_eq a b ≡ true
unfolding str_eq
str_eq_join a b c h k =
    let e : c_str a ≡ c_str b =
      bytes_eq→eq (c_str a) (c_str c) h ∙ sym (bytes_eq→eq (c_str b) (c_str c) k) in
    subst (λ s. bytes_eq (c_str a) s ≡ true) e (bytes_eq_refl (c_str a))

-- To free the slot of one id does not change what is found for another.
pub look_up-free_slot :
    (t u : Transaction) (slots : List PendingTransaction) {slots' : List PendingTransaction}
    → str_eq t.tx_id u.tx_id ≡ false
    → free_slot t slots ≡ some slots'
    → look_up u slots' ≡ look_up u slots
unfolding free_slot look_up
look_up-free_slot t u [] other h = cc
look_up-free_slot t u (s ∷ slots) {slots'} other h = elim (Option-cases (free_slot t slots)) [
  | inl e ↦ ground (arith, e, str_eq_join t.tx_id u.tx_id s.tx.tx_id)
  | inr (rest, e) ↦
      ground (arith, e, look_up-free_slot t u slots other e, str_eq_join t.tx_id u.tx_id s.tx.tx_id)
]
