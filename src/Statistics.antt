-- ===== src/Statistics.antt =====
-- src/Statistics.c: the process that counts the blocks of each miner from the validators' messages. A
-- `double` is a value of the type `Double`, and `add` its sum with a 64-bit difference of two times.
pub mod Totals
pub mod Messages
pub mod Reports
pub mod Printed
pub mod Tests
use projeto_so.Base.{
  ℕ, zero, suc, ◌+◌, ◌-◌, ◌≡◌, refl, Bool, true, false, List, [], ◌∷◌, Option, none, some, ltb,
  ◌==◌, if◌then◌else◌, get_elem?, set, take, replicate, u32, u64, minus_one,
}
use projeto_so.Libc.{atoi}
use projeto_so.Chain.{Transaction, TransactionBlock, Ledger, StatisticsMessage}
use projeto_so.Chain.Layout.{message_size}

-- Integers are 32-bit patterns.
pub record Statistics (Double : Type 0) : Type 0 where
  pub miner_valid_blocks : List ℕ
  pub miner_invalid_blocks : List ℕ
  pub total_tx_time : Double
  pub miner_credits : List ℕ
  pub total_blocks_processed : ℕ
  pub blocks_in_chain : ℕ

-- `xs[i] += a` on an array of `int`s; `none` is that the index is out of bounds.
unfoldable pub add_at : List ℕ → ℕ → ℕ → Option (List ℕ)
add_at xs i a = elim (get_elem? xs i) [ none ↦ none | some x ↦ some (set xs i (u32 (x + a))) ]

-- atoi (msg->miner_id) - 1, as the index of an array.
unfoldable pub miner_index : StatisticsMessage → ℕ
miner_index msg = u32 (atoi msg.miner_id + minus_one)

module _ (Double : Type 0) (add : Double → ℕ → Double) where
  unfoldable pub new_statistics : Double → ℕ → Statistics Double
  new_statistics nought num_miners = record {
    miner_valid_blocks = replicate num_miners 0;
    miner_invalid_blocks = replicate num_miners 0;
    total_tx_time = nought;
    miner_credits = replicate num_miners 0;
    total_blocks_processed = 0;
    blocks_in_chain = 0;
  }

  -- The loop over the transactions of the ledger's block.
  unfoldable pub add_times : Double → ℕ → List Transaction → Double
  add_times total now [] = total
  add_times total now (t ∷ ts) =
      add_times (add total (u64 (now + (18446744073709551616 - t.timestamp)))) now ts

  unfoldable pub count_invalid : StatisticsMessage → Statistics Double → Option (Statistics Double)
  count_invalid msg s = elim (add_at s.miner_invalid_blocks (miner_index msg) 1) [
    | none ↦ none
    | some invalid ↦ some (record s {
      miner_invalid_blocks = invalid;
      total_blocks_processed = u32 (s.total_blocks_processed + 1);
    })
  ]

  -- The arrays of a miner and the two totals.
  unfoldable pub count_valid : StatisticsMessage → Statistics Double → Option (Statistics Double)
  count_valid msg s = elim (add_at s.miner_valid_blocks (miner_index msg) 1) [
    | none ↦ none
    | some valid ↦ elim (add_at s.miner_credits (miner_index msg) msg.earned_amount) [
      | none ↦ none
      | some credits ↦ some (record s {
        miner_valid_blocks = valid;
        miner_credits = credits;
        total_blocks_processed = u32 (s.total_blocks_processed + 1);
        blocks_in_chain = u32 (s.blocks_in_chain + 1);
      })
    ]
  ]

  -- The part under the semaphore of the ledger.
  unfoldable pub time_block :
      ℕ → Ledger → StatisticsMessage → Statistics Double → Option (Statistics Double)
  time_block n l msg s = elim (get_elem? l.blocks msg.block_index) [
    | none ↦ none
    | some b ↦ some (record s {
      total_tx_time = add_times s.total_tx_time msg.timestamp (take n b.transactions);
    })
  ]

  -- A message that was received; `none` is an access out of bounds.
  unfoldable pub handle_message :
      ℕ → Ledger → StatisticsMessage → Statistics Double → Option (Statistics Double)
  handle_message n l msg s =
      if msg.block_index == minus_one
      then count_invalid msg s
      else elim (count_valid msg s) [ none ↦ none | some s' ↦ time_block n l msg s' ]

  -- A pass of the loop over the bytes received: fewer than a message has are dropped.
  unfoldable pub receive :
      ℕ → Ledger → ℕ → StatisticsMessage → Statistics Double → Option (Statistics Double)
  receive n l bytes_received msg s =
      if ltb bytes_received message_size then some s else handle_message n l msg s

  -- The loop, with each message and the ledger when it is handled.
  unfoldable pub receive_all :
      ℕ → List (Ledger × ℕ × StatisticsMessage) → Statistics Double → Option (Statistics Double)
  receive_all n [] s = some s
  receive_all n ((l, bytes, msg) ∷ rest) s = elim (receive n l bytes msg s) [
    | none ↦ none
    | some s' ↦ receive_all n rest s'
  ]
