-- ===== src/Validator/Transactions/Section.antt =====
-- The section under the semaphore of the pool, as a whole.
use projeto_so.Base.{
  ℕ, zero, suc, ◌+◌, ◌≡◌, refl, sym, ap, subst, ◌∙◌, inl, inr, true, false, List, [], ◌∷◌, ◌++◌,
  some, arith, Bool-cases, length, length-replicate, take, take-length, str_eq, replicate,
}
use projeto_so.Chain.{Transaction, PendingTransaction, TransactionPool, TransactionBlock}
use projeto_so.Pool.{filled_count-le, IsPool}
use projeto_so.Validator.Transactions.{
  tx_compare, found, look_up, verify_transactions, free_slot, remove_transaction,
  remove_transactions, age_transactions, pool_section,
}
use projeto_so.Validator.Transactions.Finding.{
  NoSlot, FirstSlot, AllListed, verify_transactions-cons, verify_transactions-found,
  verify_transactions_iff, Finds, look_up-Finds, FirstSlot→found,
}
use projeto_so.Validator.Transactions.Removal.{
  freed, free_slot-FirstSlot, free_slot-NoSlot, free_slot-filled_count, remove_transactions-IsPool,
  age_transactions-IsPool, look_up-free_slot,
}

-- The section under the pool's semaphore leaves a well-formed pool well formed, whether the block
-- is taken or skipped.
pub pool_section-IsPool :
    (n : ℕ) (b : TransactionBlock) (p : TransactionPool) → IsPool p → IsPool (pool_section n b p).1
unfolding pool_section
pool_section-IsPool n b p v =
    elim (Bool-cases (verify_transactions (take n b.transactions) p.transactions)) [
      | inl ok ↦
          simp ok
            (age_transactions-IsPool _ (remove_transactions-IsPool (take n b.transactions) p v))
      | inr bad ↦ simp bad v
    ]

-- A block is skipped only if one of its transactions is not in the pool as the block has it, and
-- then the pool is left as it is, with no slot aged; a block that is not skipped has all its
-- transactions in the pool.
pool_section-skip :
    (n : ℕ) (b : TransactionBlock) (p : TransactionPool)
    → ((pool_section n b p).0 ≡ true
        → (¬ AllListed (take n b.transactions) p.transactions) × ((pool_section n b p).1 ≡ p))
      × ((pool_section n b p).0 ≡ false → AllListed (take n b.transactions) p.transactions)
unfolding pool_section
pool_section-skip n b p =
    elim (Bool-cases (verify_transactions (take n b.transactions) p.transactions)) [
      | inl ok ↦ simp ok ((λ e. cc), λ e. (verify_transactions_iff _ p.transactions).0 ok)
      | inr bad ↦
          simp bad
            ((λ e. ((λ all. cc ((verify_transactions_iff _ p.transactions).1 all)), refl)), λ e. cc)
    ]

-- No two of these transactions have the same id.
abbrev pub NotIn : Transaction → List Transaction → Type 0
NotIn t [] = Unit {0}
NotIn t (u ∷ us) = (str_eq t.tx_id u.tx_id ≡ false) × NotIn t us

abbrev pub DistinctIds : List Transaction → Type 0
DistinctIds [] = Unit {0}
DistinctIds (t ∷ ts) = NotIn t ts × DistinctIds ts

found_slot :
    (t : Transaction) (slots : List PendingTransaction)
    → look_up t slots ≡ found
    → FirstSlot t slots
found_slot t slots e = (subst (Finds t slots) e (look_up-Finds t slots)).0

-- A transaction that is found takes its slot and one off the count with it.
remove_transaction-found :
    (t : Transaction) (p : TransactionPool)
    → IsPool p
    → (f : FirstSlot t p.transactions)
    → (free_slot t p.transactions ≡ some (f.before ++ freed f.slot ∷ f.behind))
      × ((remove_transaction t p).transactions ≡ f.before ++ freed f.slot ∷ f.behind)
      × ((remove_transaction t p).count + 1 ≡ p.count)
unfolding remove_transaction
remove_transaction-found t p v f =
    let free = free_slot-FirstSlot t p.transactions f in
    let fewer = free_slot-filled_count t p.transactions free in
    let bound = filled_count-le p.transactions in
    (
      free,
      rw (free, remove_transaction),
      rw (free, remove_transaction) (omega (arith, fewer, bound, v.slots, v.counted, v.small)),
    )

verify_transactions-free_slot :
    (t : Transaction) (ts : List Transaction) (slots : List PendingTransaction)
    {slots' : List PendingTransaction}
    → NotIn t ts
    → free_slot t slots ≡ some slots'
    → verify_transactions ts slots' ≡ verify_transactions ts slots
unfolding verify_transactions
verify_transactions-free_slot t [] slots other h = refl
verify_transactions-free_slot t (u ∷ us) slots other h = ground (
  arith,
  look_up-free_slot t u slots other.0 h,
  verify_transactions-free_slot t us slots other.1 h,
)

remove_transactions-count :
    (ts : List Transaction) (p : TransactionPool)
    → IsPool p
    → DistinctIds ts
    → verify_transactions ts p.transactions ≡ true
    → (remove_transactions ts p).count + length ts ≡ p.count
unfolding remove_transactions
remove_transactions-count [] p v d h = omega arith
remove_transactions-count (t ∷ ts) p v d h =
    let e = verify_transactions-found t ts p.transactions h in
    let (free, slots, count) = remove_transaction-found t p v (found_slot t p.transactions e) in
    let rest : verify_transactions ts (remove_transaction t p).transactions ≡ true =
      ap (verify_transactions ts) slots
      ∙ verify_transactions-free_slot t ts p.transactions d.0 free
      ∙ sym (verify_transactions-cons t ts p.transactions e)
      ∙ h in
    omega (
      arith,
      count,
      remove_transactions-count ts (remove_transaction t p)
          (remove_transactions-IsPool (t ∷ []) p v) d.1 rest,
    )

pool_section-verified :
    (n : ℕ) (b : TransactionBlock) (p : TransactionPool)
    → (pool_section n b p).0 ≡ false
    → verify_transactions (take n b.transactions) p.transactions ≡ true
unfolding pool_section
pool_section-verified n b p h = ground arith

pool_section-taken :
    (n : ℕ) (b : TransactionBlock) (p : TransactionPool) (ts : List Transaction)
    → take n b.transactions ≡ ts
    → verify_transactions ts p.transactions ≡ true
    → ((pool_section n b p).0 ≡ false)
      × ((pool_section n b p).1 ≡ age_transactions (remove_transactions ts p))
unfolding pool_section
pool_section-taken n b p ts e ok = rw e (rw ok (refl, refl))

count-age : (p : TransactionPool) → (age_transactions p).count ≡ p.count
unfolding age_transactions
count-age p = refl

-- A block of n transactions with different ids, if it is taken, takes exactly n out of a well-
-- formed pool's count.
pub pool_section-count :
    (n : ℕ) (b : TransactionBlock) (p : TransactionPool)
    → IsPool p
    → length b.transactions ≡ n
    → DistinctIds b.transactions
    → (pool_section n b p).0 ≡ false
    → (pool_section n b p).1.count + n ≡ p.count
pool_section-count n b p v len d taken =
    let full = take-length n b.transactions len in
    let there =
      subst (λ ts. verify_transactions ts p.transactions ≡ true) full
        (pool_section-verified n b p taken) in
    let (_, result) = pool_section-taken n b p b.transactions full there in
    omega (
      arith,
      ap (λ (q : TransactionPool). q.count) result,
      count-age (remove_transactions b.transactions p),
      remove_transactions-count b.transactions p v d there,
      len,
    )

NoSlot-append :
    (t : Transaction) (before slots : List PendingTransaction) (s : PendingTransaction)
    → NoSlot t before
    → NoSlot t slots
    → NoSlot t (before ++ freed s ∷ slots)
NoSlot-append t [] slots s n m = (inl refl, m)
NoSlot-append t (b ∷ before) slots s n m = (n.0, NoSlot-append t before slots s n.1 m)

remove_copies :
    (k : ℕ) (t : Transaction) (p : TransactionPool)
    → NoSlot t p.transactions
    → remove_transactions (replicate k t) p ≡ p
unfolding remove_transactions remove_transaction
remove_copies zero t p n = refl
remove_copies (suc k) t p n =
    ap (remove_transactions (replicate k t))
      (rw (free_slot-NoSlot t p.transactions n, remove_transaction))
    ∙ remove_copies k t p n

verify_copies :
    (k : ℕ) (t : Transaction) (slots : List PendingTransaction)
    → look_up t slots ≡ found
    → verify_transactions (replicate k t) slots ≡ true
unfolding verify_transactions
verify_copies zero t slots e = refl
verify_copies (suc k) t slots e =
    verify_transactions-cons t (replicate k t) slots e ∙ verify_copies k t slots e

-- A block that lists one transaction of a well-formed pool n times, n at least one, equal to the
-- first slot with its id and with no later slot of that id, is taken, and the pool's count falls by
-- one only.
pub pool_section-copies :
    (k : ℕ) (t : Transaction) (b : TransactionBlock) (p : TransactionPool)
    → IsPool p
    → b.transactions ≡ replicate (suc k) t
    → (f : FirstSlot t p.transactions) → tx_compare (some t) (some f.slot.tx) ≡ true
    → NoSlot t f.behind
    → ((pool_section (suc k) b p).0 ≡ false) × ((pool_section (suc k) b p).1.count + 1 ≡ p.count)
unfolding remove_transactions
pool_section-copies k t b p v all f equal alone =
    let full : take (suc k) b.transactions ≡ replicate (suc k) t =
      ap (take (suc k)) all
      ∙ take-length (suc k) (replicate (suc k) t) (length-replicate (suc k) t) in
    let there = verify_copies (suc k) t p.transactions (FirstSlot→found t p.transactions f equal) in
    let (free, slots, count) = remove_transaction-found t p v f in
    let gone : NoSlot t (remove_transaction t p).transactions =
      subst (NoSlot t) (sym slots) (NoSlot-append t f.before f.behind f.slot f.none_before alone) in
    let (taken, result) = pool_section-taken (suc k) b p (replicate (suc k) t) full there in
    (
      taken,
      omega (
        arith,
        ap (λ (q : TransactionPool). q.count) result,
        count-age (remove_transactions (replicate (suc k) t) p),
        ap (λ (q : TransactionPool). q.count) (remove_copies k t (remove_transaction t p) gone),
        count,
      ),
    )
