-- ===== src/Miner/Selection.antt =====
-- The transactions that a miner thread selects.
use projeto_so.Base.{
  Option-cases, Bool, true, false, ℕ, zero, suc, ◌%◌, ◌<◌, ◌≡◌, refl, sym, subst, ◌∙◌, inl, inr,
  List, [], ◌∷◌, none, some, some_inj, arith, length, get_elem?, replicate, c_str, take,
}
use projeto_so.Libc.{strncpy}
use projeto_so.Libc.Copy.{IsPadded, strncpy-IsPadded}
use projeto_so.Chain.{Transaction, PendingTransaction, TransactionPool, tx_id_len}
use projeto_so.Validator.Blocks.Stored.{AllPadded}
use projeto_so.Miner.{select_transaction, select_from, select_transactions}

abbrev pub copy_transaction : Transaction → Transaction
copy_transaction t = record {
  tx_id = strncpy tx_id_len t.tx_id;
  reward = t.reward;
  value = t.value;
  timestamp = t.timestamp;
}

-- A copy of the transaction in some filled slot.
pub record CopyOfFilled (slots : List PendingTransaction) (t : Transaction) : Type 0 where
  pub index : ℕ
  pub slot : PendingTransaction
  pub there : get_elem? slots index ≡ some slot
  pub filled : slot.filled ≡ 1
  pub copy : t ≡ copy_transaction slot.tx

abbrev pub AllCopies : List PendingTransaction → List Transaction → Type 0
AllCopies slots [] = Unit {0}
AllCopies slots (t ∷ ts) = CopyOfFilled slots t × AllCopies slots ts

select_transaction-some :
    (slot : PendingTransaction) {t : Transaction}
    → select_transaction slot ≡ some t
    → (slot.filled ≡ 1) × (t ≡ copy_transaction slot.tx)
unfolding select_transaction
select_transaction-some slot e = (ground arith, ground arith)

-- What one draw does to the selection.
module _ (marks : List Bool) (wanted r : ℕ) (draws : List ℕ) (pool : TransactionPool) where
  select_from-unmarked :
      get_elem? marks (r % pool.size) ≡ none
      → select_from marks (suc wanted) (r ∷ draws) pool ≡ none
  unfolding select_from
  select_from-unmarked e = rw (e, select_from)

  select_from-marked :
      get_elem? marks (r % pool.size) ≡ some true
      → select_from marks (suc wanted) (r ∷ draws) pool ≡ select_from marks (suc wanted) draws pool
  unfolding select_from
  select_from-marked e = rw (e, select_from)

  select_from-out :
      get_elem? marks (r % pool.size) ≡ some false
      → get_elem? pool.transactions (r % pool.size) ≡ none
      → select_from marks (suc wanted) (r ∷ draws) pool ≡ none
  unfolding select_from
  select_from-out free e = rw (free, e, select_from)

  module _ (slot : PendingTransaction) (free : get_elem? marks (r % pool.size) ≡ some false)
      (e : get_elem? pool.transactions (r % pool.size) ≡ some slot) where
    select_from-passed :
        select_transaction slot ≡ none
        → select_from marks (suc wanted) (r ∷ draws) pool
          ≡ select_from marks (suc wanted) draws pool
    unfolding select_from
    select_from-passed f = rw (free, e, f, select_from)

    select_from-taken :
        {t : Transaction} {ts : List Transaction}
        → select_transaction slot ≡ some t
        → select_from marks wanted draws pool ≡ some ts
        → select_from marks (suc wanted) (r ∷ draws) pool ≡ some (t ∷ ts)
    unfolding select_from
    select_from-taken f g = rw (free, e, f, g, select_from)

    select_from-short :
        {t : Transaction}
        → select_transaction slot ≡ some t
        → select_from marks wanted draws pool ≡ none
        → select_from marks (suc wanted) (r ∷ draws) pool ≡ none
    unfolding select_from
    select_from-short f g = rw (free, e, f, g, select_from)

-- Whatever is marked, the transactions selected are copies of those in filled slots.
select_from-AllCopies :
    (marks : List Bool) (wanted : ℕ) (draws : List ℕ) (pool : TransactionPool)
    (ts : List Transaction)
    → select_from marks wanted draws pool ≡ some ts
    → (length ts ≡ wanted) × AllCopies pool.transactions ts
unfolding select_from
select_from-AllCopies marks zero draws pool ts h =
    let e : [] ≡ ts = some_inj h in
    subst (λ ts. (length ts ≡ 0) × AllCopies pool.transactions ts) e (refl, tt)
select_from-AllCopies marks (suc wanted) [] pool ts h = cc
select_from-AllCopies marks (suc wanted) (r ∷ draws) pool ts h =
    elim (Option-cases (get_elem? marks (r % pool.size))) [
      | inl past ↦ absurd (cc (h, select_from-unmarked marks wanted r draws pool past))
      | inr (true, marked) ↦
          select_from-AllCopies marks (suc wanted) draws pool ts
            (sym (select_from-marked marks wanted r draws pool marked) ∙ h)
      | inr (false, free) ↦ elim (Option-cases (get_elem? pool.transactions (r % pool.size))) [
        | inl out ↦ absurd (cc (h, select_from-out marks wanted r draws pool free out))
        | inr (slot, there) ↦ elim (Option-cases (select_transaction slot)) [
          | inl passed ↦
              select_from-AllCopies marks (suc wanted) draws pool ts
                (sym (select_from-passed marks wanted r draws pool slot free there passed) ∙ h)
          | inr (t, taken) ↦ elim (Option-cases (select_from marks wanted draws pool)) [
            | inl short ↦
                absurd
                  (cc (h, select_from-short marks wanted r draws pool slot free there taken short))
            | inr (us, rest) ↦
                let e : t ∷ us ≡ ts = some_inj (
                  sym (select_from-taken marks wanted r draws pool slot free there taken rest)
                  ∙ h) in
                let (filled, copy) = select_transaction-some slot taken in
                let (long, all) = select_from-AllCopies marks wanted draws pool us rest in
                subst (λ ts. (length ts ≡ suc wanted) × AllCopies pool.transactions ts) e
                  (
                    omega (arith, long),
                    (
                      record {
                        index = r % pool.size;
                        slot = slot;
                        there = there;
                        filled = filled;
                        copy = copy;
                      },
                      all,
                    ),
                  )
          ]
        ]
      ]
    ]

-- A selection that is complete has as many transactions as a block wants, each a copy of one in a
-- filled slot of the pool.
pub select_transactions-AllCopies :
    (wanted : ℕ) (draws : List ℕ) (pool : TransactionPool) (ts : List Transaction)
    → select_transactions wanted draws pool ≡ some ts
    → (length ts ≡ wanted) × AllCopies pool.transactions ts
unfolding select_transactions
select_transactions-AllCopies wanted draws pool ts h =
    select_from-AllCopies (replicate pool.size false) wanted draws pool ts h

-- Every slot's id ends within its buffer.
abbrev pub AllTerminated : List PendingTransaction → Type 0
AllTerminated [] = Unit {0}
AllTerminated (s ∷ slots) =
    (length (c_str (take tx_id_len s.tx.tx_id)) < tx_id_len) × AllTerminated slots

pub terminated_at :
    (slots : List PendingTransaction) (i : ℕ) (s : PendingTransaction)
    → AllTerminated slots
    → get_elem? slots i ≡ some s
    → length (c_str (take tx_id_len s.tx.tx_id)) < tx_id_len
terminated_at [] i s all e = absurd (cc e)
terminated_at (x ∷ slots) zero s all e =
    subst (λ (y : PendingTransaction). length (c_str (take tx_id_len y.tx.tx_id)) < tx_id_len)
      (some_inj e) all.0
terminated_at (x ∷ slots) (suc i) s all e = terminated_at slots i s all.1 e

pub AllCopies-AllPadded :
    (slots : List PendingTransaction) (ts : List Transaction)
    → AllTerminated slots
    → AllCopies slots ts
    → AllPadded ts
AllCopies-AllPadded slots [] ended all = tt
AllCopies-AllPadded slots (t ∷ ts) ended (c, all) = (
  subst (λ (u : Transaction). IsPadded tx_id_len u.tx_id) (sym c.copy)
      (strncpy-IsPadded tx_id_len c.slot.tx.tx_id
        (terminated_at slots c.index c.slot ended c.there)),
  AllCopies-AllPadded slots ts ended all,
)
