-- ===== src/Controller/Dump.antt =====
-- src/Controller.c: dump_ledger, the text that it builds and the size of the buffer that it allocates for it.
-- What "%.2f" prints is the parameter `format_value`. A count that is larger than the number of blocks is not
-- modelled.
pub mod Fits
pub mod Tests
use projeto_so.Base.{
  ℕ, zero, suc, ◌+◌, ◌-◌, ◌*◌, ◌^◌, List, [], ◌∷◌, ◌++◌, ltb, if◌then◌else◌, take, length, c_str,
  codes, u64, ◌==◌,
}
use projeto_so.Libc.{digits}
use projeto_so.Chain.{Transaction, TransactionBlock, Ledger}
use projeto_so.Chain.Layout.{transaction_size}

unfoldable pub estimated_size : ℕ → ℕ → ℕ
estimated_size count n = u64 (256 + count * (transaction_size + 100) * n)

-- "%ld" of a time_t.
unfoldable pub format_long : ℕ → List ℕ
format_long n = if ltb n (2 ^ 63) then digits 19 n else b'-' ∷ digits 19 (2 ^ 64 - n)

unfoldable pub texts : List (List ℕ) → List ℕ
texts [] = []
texts (x ∷ xs) = x ++ texts xs

-- What snprintf leaves of a text in temp.
unfoldable pub in_temp : List ℕ → List ℕ
in_temp text = take (256 - 1) text

unfoldable pub block_header : ℕ → TransactionBlock → List ℕ
block_header i b = in_temp (
    texts (
      codes "||---- Block  "
      ∷ digits 10 i
      ∷ codes " --\nBlock ID="
      ∷ c_str b.txb_id
      ∷ codes "\nPrevious Hash="
      ∷ c_str b.previous_block_hash
      ∷ codes "\nBlock Timestamp="
      ∷ format_long b.timestamp
      ∷ codes "\nNonce="
      ∷ digits 10 b.nonce
      ∷ codes "\nTransactions:\n"
      ∷ []))

unfoldable pub transaction_line : (ℕ → List ℕ) → ℕ → Transaction → List ℕ
transaction_line format_value j t = in_temp (
    texts (
      codes "    ["
      ∷ digits 10 j
      ∷ codes "]: ID="
      ∷ c_str t.tx_id
      ∷ codes " | Reward="
      ∷ digits 10 t.reward
      ∷ codes " | Value="
      ∷ format_value t.value
      ∷ codes " | Timestamp="
      ∷ format_long t.timestamp
      ∷ codes "\n"
      ∷ []))

-- The transactions from the one with index `j`.
unfoldable pub transaction_lines : (ℕ → List ℕ) → ℕ → List Transaction → List ℕ
transaction_lines format_value j [] = []
transaction_lines format_value j (t ∷ ts) =
    transaction_line format_value j t ++ transaction_lines format_value (suc j) ts

unfoldable pub dump_block : (ℕ → List ℕ) → ℕ → ℕ → TransactionBlock → List ℕ
dump_block format_value n i b =
    if length (c_str b.txb_id) == 0
    then []
    else texts (
        block_header i b
        ∷ transaction_lines format_value 0 (take n b.transactions)
        ∷ codes "||-------------------------------------\n"
        ∷ [])

unfoldable pub dump_blocks : (ℕ → List ℕ) → ℕ → ℕ → List TransactionBlock → List ℕ
dump_blocks format_value n i [] = []
dump_blocks format_value n i (b ∷ bs) =
    dump_block format_value n i b ++ dump_blocks format_value n (suc i) bs

-- The string in the buffer, without its NUL.
unfoldable pub dump_ledger : (ℕ → List ℕ) → ℕ → Ledger → List ℕ
dump_ledger format_value n l = texts (
    codes "\n=================== Start Ledger ===================\n"
    ∷ dump_blocks format_value n 0 (take l.count l.blocks)
    ∷ codes "=================== End Ledger ===================\n"
    ∷ [])
