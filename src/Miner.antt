-- ===== src/Miner.antt =====
-- src/Miner.c: a thread of the miner process. The random numbers and the clock are arguments.
pub mod Selection
pub mod Search
pub mod Rounds
pub mod Accepted
pub mod Progress
pub mod Threads
pub mod Tests
use projeto_so.Base.{
  ℕ, zero, suc, ◌+◌, ◌-◌, ◌%◌, ◌^◌, ◌≡◌, Bool, true, false, ◌&&◌, ◌||◌, not, List, [], ◌∷◌, ◌++◌,
  Option, none, some, ltb, leb, ◌==◌, if◌then◌else◌, length, get_elem?, replicate, str_eq, codes,
  u32,
}
use projeto_so.Libc.{snprintf, strncpy, format_int}
use projeto_so.Chain.{
  Transaction, PendingTransaction, TransactionPool, TransactionBlock, Ledger, tx_id_len, txb_id_len,
  hash_size,
}
use projeto_so.Pow.{PowResult, proof_of_work}
use projeto_so.Pipe.{encode_block}

-- The text of "BLOCK-%d-%d".
unfoldable pub block_name : ℕ → ℕ → List ℕ
block_name thread_id block_number =
    codes "BLOCK-" ++ (format_int thread_id ++ (b'-' ∷ format_int block_number))

-- The body of the selection for a slot that was drawn: the copy of its transaction, if it has one.
unfoldable pub select_transaction : PendingTransaction → Option Transaction
select_transaction slot =
    if not (str_eq slot.tx.tx_id (codes "0" ++ 0 ∷ [])) && slot.filled == 1
    then some (record {
      tx_id = strncpy tx_id_len slot.tx.tx_id;
      reward = slot.tx.reward;
      value = slot.tx.value;
      timestamp = slot.tx.timestamp;
    })
    else none

-- The loop that selects `wanted` more transactions, over the random numbers that it draws; it reads
-- `selected_bitmap` and does not write it. `none` is that the random numbers given were used up.
unfoldable pub select_from : List Bool → ℕ → List ℕ → TransactionPool → Option (List Transaction)
select_from selected_bitmap zero draws pool = some []
select_from selected_bitmap (suc wanted) [] pool = none
select_from selected_bitmap (suc wanted) (r ∷ draws) pool =
    elim (get_elem? selected_bitmap (r % pool.size)) [
      | none ↦ none
      | some true ↦ select_from selected_bitmap (suc wanted) draws pool
      | some false ↦ elim (get_elem? pool.transactions (r % pool.size)) [
        | none ↦ none
        | some slot ↦ elim (select_transaction slot) [
          | none ↦ select_from selected_bitmap (suc wanted) draws pool
          | some t ↦ elim (select_from selected_bitmap wanted draws pool) [
            | none ↦ none
            | some ts ↦ some (t ∷ ts)
          ]
        ]
      ]
    ]

-- The selection, with the bitmap that calloc gives.
unfoldable pub select_transactions : ℕ → List ℕ → TransactionPool → Option (List Transaction)
unfolding select_from
select_transactions wanted draws pool = select_from (replicate pool.size false) wanted draws pool

-- The first test of a round, on the counts that were read.
unfoldable pub has_work : ℕ → ℕ → ℕ → ℕ → Bool
has_work n blockchain_blocks tx_count ledger_count =
    not (ltb tx_count n || leb blockchain_blocks ledger_count)

-- The copy of the last hash, where the ledger has room by the limit of the configuration.
unfoldable pub copy_last_hash : ℕ → Ledger → Option (List ℕ)
copy_last_hash blockchain_blocks l =
    if ltb l.count blockchain_blocks then some (strncpy hash_size l.last_block_hash) else none

-- The block of a thread before the search for its nonce.
unfoldable pub build_block : ℕ → ℕ → List ℕ → List Transaction → TransactionBlock
build_block thread_id block_number last_block_hash ts = record {
  txb_id = snprintf (replicate txb_id_len 0) txb_id_len (block_name thread_id block_number);
  previous_block_hash = strncpy hash_size last_block_hash;
  timestamp = 0;
  nonce = 0;
  transactions = ts;
}

-- The search for a nonce, again with a new time for as long as none is found and the threads are not
-- stopped. Each attempt has its time and whether the threads are stopped after it; `none` is that the
-- attempts given were used up.
unfoldable pub mine_block :
    (List ℕ → List ℕ) → ℕ → List (ℕ × Bool) → TransactionBlock → Option TransactionBlock
mine_block sha n [] block = none
mine_block sha n ((now, stop) ∷ attempts) block =
    elim (proof_of_work sha n (record block { timestamp = now })) [
      | none ↦ none
      | some (r, block') ↦
          if r.error == 1 && not stop then mine_block sha n attempts block' else some block'
    ]

-- What a round takes from its surroundings: the counts at the first test, the pool and the ledger in
-- the sections under their semaphores, the random numbers, and the attempts at a nonce.
pub record Sights : Type 0 where
  pub tx_count : ℕ
  pub ledger_count : ℕ
  pub pool : TransactionPool
  pub ledger : Ledger
  pub draws : List ℕ
  pub attempts : List (ℕ × Bool)

-- How a round ends: the thread goes on, it leaves its loop, it wrote the bytes of a block to the pipe
-- and goes on with the next number, or it takes more than the draws or the attempts given.
pub data RoundEnd : Type 0 where
  idle : RoundEnd
  full : RoundEnd
  wrote : (block_number : ℕ) → TransactionBlock → List ℕ → RoundEnd
  unfinished : RoundEnd

unfoldable pub write_to_pipe : ℕ → ℕ → Option TransactionBlock → RoundEnd
write_to_pipe n block_number none = unfinished
write_to_pipe n block_number (some block) =
    wrote (u32 (block_number + 1)) block (encode_block n block)

unfoldable pub mine_selected :
    (List ℕ → List ℕ) → ℕ → ℕ → ℕ → ℕ → Sights → Option (List Transaction) → RoundEnd
mine_selected sha n blockchain_blocks thread_id block_number s none = unfinished
mine_selected sha n blockchain_blocks thread_id block_number s (some ts) =
    elim (copy_last_hash blockchain_blocks s.ledger) [
      | none ↦ full
      | some hash ↦
          write_to_pipe n block_number
            (mine_block sha n s.attempts (build_block thread_id block_number hash ts))
    ]

-- A round of a thread's loop whose allocations succeed.
unfoldable pub mine_round : (List ℕ → List ℕ) → ℕ → ℕ → ℕ → ℕ → Sights → RoundEnd
mine_round sha n blockchain_blocks thread_id block_number s =
    if has_work n blockchain_blocks s.tx_count s.ledger_count && leb n s.pool.count
    then mine_selected sha n blockchain_blocks thread_id block_number s
        (select_transactions n s.draws s.pool)
    else idle

-- The loop of miner_thread over its rounds, with the number of the next block: the blocks that it writes. It
-- leaves the loop at a full ledger.
unfoldable pub mine_rounds : (List ℕ → List ℕ) → ℕ → ℕ → ℕ → ℕ → List Sights → List TransactionBlock
mine_rounds sha n blockchain_blocks thread_id block_number [] = []
mine_rounds sha n blockchain_blocks thread_id block_number (s ∷ rounds) =
    elim (mine_round sha n blockchain_blocks thread_id block_number s) [
      | idle ↦ mine_rounds sha n blockchain_blocks thread_id block_number rounds
      | full ↦ []
      | wrote number b bytes ↦ b ∷ mine_rounds sha n blockchain_blocks thread_id number rounds
      | unfinished ↦ []
    ]

unfoldable pub miner_thread : (List ℕ → List ℕ) → ℕ → ℕ → ℕ → List Sights → List TransactionBlock
miner_thread sha n blockchain_blocks thread_id rounds =
    mine_rounds sha n blockchain_blocks thread_id 0 rounds
