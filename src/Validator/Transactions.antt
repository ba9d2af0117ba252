-- ===== src/Validator/Transactions.antt =====
-- The part of validator of src/Validator.c under the semaphore of the transactions pool. The copies
-- in `temp_tx_array` and the flags in `tx_found_bitmap` are never read, and are left out.
pub mod Finding
pub mod Removal
pub mod Section
use projeto_so.Base.{
  ℕ, zero, suc, ◌+◌, ◌-◌, ◌%◌, ◌^◌, ◌≡◌, refl, Bool, true, false, ◌&&◌, List, [], ◌∷◌, Option, none,
  some, ◌==◌, if◌then◌else◌, str_eq, u32, map, take,
}
use projeto_so.Floats.{float_eq}
use projeto_so.Chain.{Transaction, PendingTransaction, TransactionPool, TransactionBlock}

same_transaction : Transaction → Transaction → Bool
same_transaction a b =
    str_eq a.tx_id b.tx_id
    && (a.reward == b.reward && (float_eq a.value b.value && a.timestamp == b.timestamp))

-- txCompare, where `none` is the null pointer.
unfoldable pub tx_compare : Option Transaction → Option Transaction → Bool
unfolding same_transaction
tx_compare none b = false
tx_compare (some a) none = false
tx_compare (some a) (some b) = same_transaction a b

pub data Lookup : Type 0 where
  missing differs found : Lookup

-- The inner loop over the slots, for one transaction of the block.
unfoldable pub look_up : Transaction → List PendingTransaction → Lookup
look_up t [] = missing
look_up t (slot ∷ slots) =
    let rest = look_up t slots in
    if slot.filled == 0
    then rest
    else if str_eq t.tx_id slot.tx.tx_id
    then (if tx_compare (some t) (some slot.tx) then found else differs)
    else rest

-- The outer loop: it stops at the first transaction that is not in the pool as the block has it.
unfoldable pub verify_transactions : List Transaction → List PendingTransaction → Bool
verify_transactions [] slots = true
verify_transactions (t ∷ ts) slots = elim (look_up t slots) [
  | found ↦ verify_transactions ts slots
  | _ ↦ false
]

abbrev pub behind :
    PendingTransaction → Option (List PendingTransaction) → Option (List PendingTransaction)
behind slot none = none
behind slot (some slots) = some (slot ∷ slots)

-- The first filled slot with this id is freed; `none` is that there is no such slot.
unfoldable pub free_slot : Transaction → List PendingTransaction → Option (List PendingTransaction)
free_slot t [] = none
free_slot t (slot ∷ slots) =
    let rest = behind slot (free_slot t slots) in
    if slot.filled == 0
    then rest
    else if str_eq t.tx_id slot.tx.tx_id
    then some (record slot { filled = 0 } ∷ slots)
    else rest

unfoldable pub remove_transaction : Transaction → TransactionPool → TransactionPool
remove_transaction t pool = elim (free_slot t pool.transactions) [
  | none ↦ pool
  | some slots ↦ record pool { transactions = slots; count = u32 (pool.count + 2 ^ 32 - 1) }
]

unfoldable pub remove_transactions : List Transaction → TransactionPool → TransactionPool
remove_transactions [] pool = pool
remove_transactions (t ∷ ts) pool = remove_transactions ts (remove_transaction t pool)

-- One slot under the aging of the pool: the reward grows in the first and then every fiftieth round.
unfoldable pub age_slot : PendingTransaction → PendingTransaction
age_slot slot =
    let tx = record slot.tx {
      reward = if (slot.age % 50) == 0 then u32 (slot.tx.reward + 1) else slot.tx.reward;
    } in
    if slot.filled == 1 then record slot { tx = tx; age = u32 (slot.age + 1) } else slot

unfoldable pub age_transactions : TransactionPool → TransactionPool
age_transactions pool = record pool { transactions = map age_slot pool.transactions }

-- The whole section for a block: whether it is to be skipped, and the pool.
unfoldable pub pool_section : ℕ → TransactionBlock → TransactionPool → Bool × TransactionPool
pool_section n block pool =
    let ts = take n block.transactions in
    if verify_transactions ts pool.transactions
    then (false, age_transactions (remove_transactions ts pool))
    else (true, pool)
