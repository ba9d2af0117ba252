-- ===== src/Validator/Messages.antt =====
-- The messages of validator of src/Validator.c to the statistics process.
pub mod MinerId
use projeto_so.Base.{
  ℕ, zero, suc, ◌+◌, ◌≡◌, Bool, List, [], ◌∷◌, ◌++◌, Option, none, some, ltb, if◌then◌else◌, length,
  replicate, c_str, codes, u32, minus_one, take,
}
use projeto_so.Libc.{snprintf, format_int, scan_int, scan_literal}
use projeto_so.Chain.{Transaction, TransactionBlock, StatisticsMessage, txb_id_len}

-- sscanf (txb_id, "BLOCK-%d-", &miner_id), where `none` is that no number was read.
unfoldable pub scan_miner_id : List ℕ → Option ℕ
scan_miner_id txb_id = elim (scan_literal (codes "BLOCK-") (c_str txb_id)) [
  | none ↦ none
  | some rest ↦ elim (scan_int rest) [ none ↦ none | some (id, behind) ↦ some id ]
]

-- The field of 7 bytes, NULs before it is written.
unfoldable pub miner_id_field : List ℕ → List ℕ
miner_id_field txb_id = elim (scan_miner_id txb_id) [
  | none ↦ snprintf (replicate 7 0) 7 (codes "-1")
  | some id ↦ snprintf (replicate 7 0) 7 (format_int id)
]

unfoldable pub txb_id_field : List ℕ → List ℕ
txb_id_field txb_id = snprintf (replicate txb_id_len 0) txb_id_len (c_str txb_id)

-- The sum of the rewards, in `int`s.
unfoldable pub sum_rewards : ℕ → List Transaction → ℕ
sum_rewards acc [] = acc
sum_rewards acc (t ∷ ts) = sum_rewards (u32 (acc + t.reward)) ts

-- The message on a block that is skipped.
unfoldable pub skipped_message : TransactionBlock → StatisticsMessage
skipped_message b = record {
  txb_id = txb_id_field b.txb_id;
  miner_id = miner_id_field b.txb_id;
  block_index = minus_one;
  earned_amount = minus_one;
  timestamp = 0;
}

-- The message on a block that stands at `index` of the ledger since the time `now`.
unfoldable pub inserted_message : ℕ → TransactionBlock → ℕ → ℕ → StatisticsMessage
inserted_message n b index now = record {
  txb_id = txb_id_field b.txb_id;
  miner_id = miner_id_field b.txb_id;
  block_index = index;
  earned_amount = sum_rewards 0 (take n b.transactions);
  timestamp = now;
}

-- STATISTICS_MQ_SIZE of include/Controller.h
abbrev pub statistics_mq_size : ℕ
statistics_mq_size = 10

-- mq_send to a queue that does not block: a message to a full queue is lost.
unfoldable pub mq_send : List StatisticsMessage → StatisticsMessage → List StatisticsMessage
mq_send queue message =
    if ltb (length queue) statistics_mq_size then queue ++ message ∷ [] else queue
