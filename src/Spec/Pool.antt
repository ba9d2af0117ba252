-- ===== src/Spec/Pool.antt =====
-- The pool of src/txGen.c and src/Validator.c as a bag of ids.
use mathlib.Core.Quot
use projeto_so.Base.{
  ℕ, ◌≤◌, ◌≢◌, ◌-◌, bytes_eq, bytes_eq-cases, false, ◌≡◌, refl, sym, ap, ◌∙◌, ◌⊎◌, inl, inr, true,
  List, [], ◌∷◌, ◌++◌, map, none, some, arith, subst, bytes_eq_refl, Bool-cases, Option-cases, take,
  c_str, str_eq, bytes_eq→eq, dec_lt,
}
use projeto_so.Chain.{Transaction, PendingTransaction, TransactionPool, TransactionBlock}
use projeto_so.Pool.{IsPool}
use projeto_so.TxGen.{Surroundings, Generator, generate_transaction, add_transaction}
use projeto_so.TxGen.Rounds.{Added, add_transaction_room, add_transaction_full}
use projeto_so.Validator.Transactions.Finding.{verify_transactions-found, verify_transactions-cons}
use projeto_so.Validator.Transactions.{
  look_up, found, free_slot, verify_transactions, remove_transaction, remove_transactions, age_slot,
  age_transactions, pool_section,
}
use projeto_so.Spec.{id_of, ids}
use projeto_so.Spec.Pending.{count, SameIds, Takes, copies_of, of_list, put}

str_eq→ids : (t u : Transaction) → str_eq t.tx_id u.tx_id ≡ true → id_of t ≡ id_of u
unfolding str_eq
str_eq→ids t u h = bytes_eq→eq (c_str t.tx_id) (c_str u.tx_id) h

bytes_eq-other : (a b : List ℕ) → bytes_eq a b ≡ false → a ≢ b
bytes_eq-other a b h e = cc (h, subst (λ x. bytes_eq a x ≡ true) e (bytes_eq_refl a))

other_id :
    (t u : Transaction) (a : List ℕ)
    → id_of t ≡ a
    → str_eq t.tx_id u.tx_id ≡ false
    → bytes_eq (id_of u) a ≡ false
unfolding str_eq
other_id t u a e other = elim (Bool-cases (bytes_eq (id_of u) a)) [
  | inl same ↦
      absurd (bytes_eq-other (id_of t) (id_of u) other (e ∙ sym (bytes_eq→eq (id_of u) a same)))
  | inr different ↦ different
]

same_id :
    (t u : Transaction) (a : List ℕ)
    → id_of t ≡ a
    → str_eq t.tx_id u.tx_id ≡ true
    → bytes_eq (id_of u) a ≡ true
same_id t u a e same =
    subst (λ x. bytes_eq (id_of u) x ≡ true) (sym (str_eq→ids t u same) ∙ e)
      (bytes_eq_refl (id_of u))

-- The id that is freed leaves the list.
free_slot-SameIds :
    (t : Transaction) (slots : List PendingTransaction) {slots' : List PendingTransaction}
    → free_slot t slots ≡ some slots'
    → SameIds (ids slots) (id_of t ∷ ids slots')
unfolding free_slot ids
free_slot-SameIds t [] h a = cc
free_slot-SameIds t (s ∷ slots) h a = elim (Option-cases (free_slot t slots)) [
  | inl e ↦ ground (arith, e, h, str_eq→ids t s.tx)
  | inr (rest, e) ↦ ground (arith, e, h, free_slot-SameIds t slots e a, str_eq→ids t s.tx)
]

ids-age : (slots : List PendingTransaction) → ids (map age_slot slots) ≡ ids slots
unfolding ids age_slot
ids-age [] = refl
ids-age (s ∷ slots) = ground (arith, ids-age slots)

module _ (t : Transaction) (p : TransactionPool) where
  removed :
      {slots : List PendingTransaction}
      → free_slot t p.transactions ≡ some slots
      → (remove_transaction t p).transactions ≡ slots
  unfolding remove_transaction
  removed e = rw (e, remove_transaction)

  kept : free_slot t p.transactions ≡ none → (remove_transaction t p).transactions ≡ p.transactions
  unfolding remove_transaction
  kept e = rw (e, remove_transaction)

-- An id that cannot be freed is not there.
free_slot-none :
    (t : Transaction) (slots : List PendingTransaction) (a : List ℕ)
    → free_slot t slots ≡ none
    → id_of t ≡ a
    → count a (ids slots) ≡ 0
unfolding free_slot ids
free_slot-none t [] a h e = refl
free_slot-none t (s ∷ slots) a h e = elim (Option-cases (free_slot t slots)) [
  | inl f ↦ ground (arith, f, h, free_slot-none t slots a f e, other_id t s.tx a e)
  | inr (rest, f) ↦ ground (arith, f, h)
]

-- Every copy of the ids that there is of a block's is taken out of the pool.
remove_transactions-count_ids :
    (ts : List Transaction) (p : TransactionPool) (a : List ℕ)
    → count a (ids (remove_transactions ts p).transactions)
      ≡ count a (ids p.transactions) - count a (map id_of ts)
unfolding remove_transactions
remove_transactions-count_ids [] p a = omega arith
remove_transactions-count_ids (t ∷ ts) p a =
    let rest = remove_transactions-count_ids ts (remove_transaction t p) a in
    elim (Option-cases (free_slot t p.transactions)) [
      | inl none_free ↦
          let same = ap (λ slots. count a (ids slots)) (kept t p none_free) in
          elim (bytes_eq-cases (id_of t) a) [
            | inl e ↦ omega (arith, rest, same, free_slot-none t p.transactions a none_free e)
            | inr other ↦ ground (arith, rest, same, bytes_eq→eq (id_of t) a)
          ]
      | inr (slots, free) ↦
          let fewer = ap (λ xs. count a (ids xs)) (removed t p free) in
          omega (arith, rest, fewer, free_slot-SameIds t p.transactions free a)
    ]

-- An id that is found is there.
found-count :
    (t : Transaction) (slots : List PendingTransaction) (a : List ℕ)
    → look_up t slots ≡ found
    → id_of t ≡ a
    → 1 ≤ count a (ids slots)
unfolding look_up ids
found-count t [] a h e = cc h
found-count t (s ∷ slots) a h e =
    ground
      (arith, h, λ (f : look_up t slots ≡ found). found-count t slots a f e, same_id t s.tx a e)

verified-count :
    (ts : List Transaction) (slots : List PendingTransaction) (a : List ℕ)
    → verify_transactions ts slots ≡ true
    → 1 ≤ count a (map id_of ts)
    → 1 ≤ count a (ids slots)
verified-count [] slots a h some_there = absurd (omega arith)
verified-count (t ∷ ts) slots a h some_there =
    let first = verify_transactions-found t ts slots h in
    let others = sym (verify_transactions-cons t ts slots first) ∙ h in
    elim (bytes_eq-cases (id_of t) a) [
      | inl e ↦ found-count t slots a first e
      | inr other ↦
          verified-count ts slots a others (ground (arith, some_there, bytes_eq→eq (id_of t) a))
    ]

-- The section under the pool's semaphore skips the block and leaves the pool as it is, or goes on and takes the
-- block's ids out of the bag.
pub pool_section-Takes :
    (n : ℕ) (b : TransactionBlock) (p : TransactionPool)
    → (((pool_section n b p).0 ≡ true) × ((pool_section n b p).1 ≡ p))
      ⊎ (((pool_section n b p).0 ≡ false)
          × Takes
              (map id_of (take n b.transactions))
              (of_list (ids p.transactions))
              (of_list (ids (pool_section n b p).1.transactions)))
unfolding pool_section age_transactions copies_of
pool_section-Takes n b p =
    let ts = take n b.transactions in
    elim (Bool-cases (verify_transactions ts p.transactions)) [
      | inl ok ↦ rw ok (
          inr (
            refl,
            record {
              there = λ a. verified-count ts p.transactions a ok;
              left = λ a.
                  ap (count a) (ids-age (remove_transactions ts p).transactions)
                  ∙ remove_transactions-count_ids ts p a;
            },
          ))
      | inr bad ↦ rw bad (inl (refl, refl))
    ]

ids-append : (xs ys : List PendingTransaction) → ids (xs ++ ys) ≡ ids xs ++ ids ys
unfolding ids
ids-append [] ys = refl
ids-append (s ∷ xs) ys = ground (arith, ids-append xs ys)

count-middle :
    (a k : List ℕ) (xs ys : List (List ℕ)) → count a (xs ++ k ∷ ys) ≡ count a (k ∷ (xs ++ ys))
count-middle a k [] ys = refl
count-middle a k (x ∷ xs) ys = omega (arith, count-middle a k xs ys)

ids-filled :
    (s : PendingTransaction) (slots : List PendingTransaction)
    → s.filled ≡ 1
    → ids (s ∷ slots) ≡ id_of s.tx ∷ ids slots
unfolding ids
ids-filled s slots e = rw e refl

ids-free :
    (s : PendingTransaction) (slots : List PendingTransaction)
    → s.filled ≡ 0
    → ids (s ∷ slots) ≡ ids slots
unfolding ids
ids-free s slots e = rw e refl

module _ (env : Surroundings) (reward : ℕ) (g : Generator) (p : TransactionPool) where
  new : PendingTransaction
  new = (generate_transaction env reward g.tx_number).0

  new-filled : new.filled ≡ 1
  unfolding new generate_transaction
  new-filled = refl

  Added-SameIds :
      (p' : TransactionPool)
      → Added env reward g p p'
      → SameIds (ids p'.transactions) (id_of new.tx ∷ ids p.transactions)
  unfolding new
  Added-SameIds p' a k =
      ap (λ (q : TransactionPool). count k (ids q.transactions)) a.new
      ∙ ap (count k) (ids-append a.before (new ∷ a.behind))
      ∙ ap (λ xs. count k (ids a.before ++ xs)) (ids-filled new a.behind new-filled)
      ∙ count-middle k (id_of new.tx) (ids a.before) (ids a.behind)
      ∙ ap (λ xs. count k (id_of new.tx ∷ xs))
          (sym (
            ap ids a.old
            ∙ ids-append a.before (a.free ∷ a.behind)
            ∙ ap (λ xs. ids a.before ++ xs) (ids-free a.free a.behind a.empty)))

  -- A generator puts the id of its new transaction into the bag, or finds the pool full.
  pub add_transaction-put :
      IsPool p
      → ((add_transaction env reward g p).1 ≡ p)
        ⊎ (of_list (ids (add_transaction env reward g p).1.transactions)
            ≡ put
                (id_of (generate_transaction env reward g.tx_number).0.tx)
                (of_list (ids p.transactions)))
  unfolding put new
  add_transaction-put v = elim (dec_lt p.count p.size) [
    | yes room ↦ inr (Quot.sound (Added-SameIds _ (add_transaction_room env reward g p v room).0))
    | no full ↦ inl (ap (λ r. r.1) (add_transaction_full env reward g p (omega arith)))
  ]
