-- ===== src/Pool.antt =====
-- What the processes rely on about the pool of pending transactions: its count is the number of
-- filled slots.
use projeto_so.Base.{
  ℕ, ◌+◌, ◌≤◌, ◌<◌, ◌^◌, ◌≡◌, List, [], ◌∷◌, ◌++◌, arith, ◌==◌, if◌then◌else◌, length,
}
use projeto_so.Chain.{PendingTransaction, TransactionPool}

abbrev pub filled_weight : PendingTransaction → ℕ
filled_weight slot = if slot.filled == 0 then 0 else 1

unfoldable pub filled_count : List PendingTransaction → ℕ
filled_count [] = 0
filled_count (slot ∷ slots) = filled_weight slot + filled_count slots

pub filled_count-append :
    (a b : List PendingTransaction) → filled_count (a ++ b) ≡ filled_count a + filled_count b
unfolding filled_count
filled_count-append [] b = omega arith
filled_count-append (s ∷ a) b = omega (arith, filled_count-append a b)

pub filled_count-le : (slots : List PendingTransaction) → filled_count slots ≤ length slots
unfolding filled_count
filled_count-le [] = omega arith
filled_count-le (s ∷ slots) = ground (arith, filled_count-le slots)

pub record IsPool (p : TransactionPool) : Type 0 where
  pub slots : length p.transactions ≡ p.size
  pub counted : p.count ≡ filled_count p.transactions
  pub small : p.size < 2 ^ 31

-- The count never passes the capacity.
pub IsPool-le : {p : TransactionPool} → IsPool p → p.count ≤ p.size
IsPool-le {p} v = omega (arith, v.slots, v.counted, filled_count-le p.transactions)
