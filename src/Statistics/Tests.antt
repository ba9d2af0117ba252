-- ===== src/Statistics/Tests.antt =====
-- Examples for src/Statistics.c, with a counter in place of a `double`.
use projeto_so.Base.{
  ℕ, List, length, inl, ◌+◌, ◌≡◌, refl, [], ◌∷◌, none, some, arith, replicate, c_str,
}
use projeto_so.Libc.{scan_literal, snprintf, format_int, atoi, scan_int, scan_digits}
use projeto_so.Chain.{AllTransactions, Ledger, StatisticsMessage}
use projeto_so.Validator.Messages.{skipped_message, inserted_message, scan_miner_id, miner_id_field}
use projeto_so.Validator.Blocks.{zero_block}
use projeto_so.Miner.{block_name}
use projeto_so.Statistics.{
  Statistics, handle_message, receive_all, receive, add_at, miner_index, count_invalid,
  new_statistics,
}
use projeto_so.Statistics.Printed.{print_statistics}
use projeto_so.Statistics.Printed.Counted.{IsKnown}
use projeto_so.Statistics.Printed.Run.{receive_all-printed}
use projeto_so.Statistics.Totals.{sum}
use projeto_so.Statistics.Reports.{
  HasMiners, Credited, handle_message-inserted, handle_message-unnamed,
}
use projeto_so.Samples.{mined_block, ledger_of_one}

abbrev add_nat : ℕ → ℕ → ℕ
add_nat a b = a + b

abbrev two_miners : Statistics ℕ
two_miners = record {
  miner_valid_blocks = 0 ∷ 0 ∷ [];
  miner_invalid_blocks = 0 ∷ 0 ∷ [];
  total_tx_time = 0;
  miner_credits = 0 ∷ 0 ∷ [];
  total_blocks_processed = 0;
  blocks_in_chain = 0;
}

two_miners-HasMiners : HasMiners 2 two_miners
two_miners-HasMiners = record { valid = refl; invalid = refl; credits = refl }

abbrev after_one : Statistics ℕ
after_one = record {
  miner_valid_blocks = 0 ∷ 0 ∷ [];
  miner_invalid_blocks = 1 ∷ 0 ∷ [];
  total_tx_time = 0;
  miner_credits = 0 ∷ 0 ∷ [];
  total_blocks_processed = 1;
  blocks_in_chain = 0;
}

skipped_once :
    receive_all ℕ add_nat 1 ((ledger_of_one, 87, skipped_message mined_block) ∷ []) two_miners
    ≡ some after_one
unfolding receive_all receive handle_message count_invalid add_at miner_index skipped_message
    miner_id_field scan_miner_id c_str snprintf format_int atoi scan_int scan_digits scan_literal
skipped_once = refl

name_of_mined : mined_block.txb_id ≡ snprintf (replicate 64 0) 64 (block_name 1 0)
unfolding snprintf block_name format_int
name_of_mined = refl

zero_transaction-IsTransaction : AllTransactions (zero_block 1).transactions
zero_transaction-IsTransaction = (
  record { tx_id = refl; reward = omega arith; value = omega arith; timestamp = omega arith },
  tt,
)

handle_message-inserted_example :
    (s' : Statistics ℕ) × (handle_message ℕ add_nat 1 ledger_of_one
        (inserted_message 1 mined_block 0 5000)
        two_miners
      ≡ some s')
    × Credited ℕ add_nat 1 mined_block (zero_block 1) 0 5000 two_miners s'
handle_message-inserted_example =
    handle_message-inserted ℕ add_nat 2 0 0 mined_block (omega arith) (omega arith) (omega arith)
      name_of_mined 1 0 5000 ledger_of_one (zero_block 1) two_miners two_miners-HasMiners
      (omega arith) refl zero_transaction-IsTransaction

unnamed : scan_miner_id (zero_block 1).txb_id ≡ none
unfolding scan_miner_id scan_literal c_str
unnamed = refl

handle_message-unnamed_example :
    handle_message ℕ add_nat 1 ledger_of_one (skipped_message (zero_block 1)) two_miners ≡ none
handle_message-unnamed_example =
    handle_message-unnamed ℕ add_nat 2 1 (zero_block 1) ledger_of_one two_miners
      two_miners-HasMiners (omega arith) unnamed

skipped_index : miner_index (skipped_message mined_block) ≡ 0
unfolding miner_index skipped_message miner_id_field scan_miner_id c_str snprintf format_int atoi
    scan_int scan_digits scan_literal
skipped_index = refl

skipped-IsKnown : IsKnown 2 ledger_of_one (skipped_message mined_block)
unfolding skipped_message
skipped-IsKnown = record { miner = omega (arith, skipped_index); block = inl refl }

-- A message that was cut off, between two on a skipped block.
abbrev some_cut_off : List (Ledger × ℕ × StatisticsMessage)
some_cut_off =
    (ledger_of_one, 87, skipped_message mined_block)
    ∷ (ledger_of_one, 86, skipped_message mined_block)
    ∷ (ledger_of_one, 87, skipped_message mined_block)
    ∷ []

receive_all-printed_example :
    (s : Statistics ℕ) × (lines : List (List ℕ)) × (receive_all ℕ add_nat 1 some_cut_off
        (new_statistics ℕ add_nat 0 2)
      ≡ some s)
    × (print_statistics (λ total count. []) 1 2 s ≡ some lines)
    × (length lines ≡ 2 + 4)
    × (s.total_blocks_processed ≡ 2)
    × (s.blocks_in_chain ≡ 0)
    × (s.total_blocks_processed ≡ sum s.miner_valid_blocks + sum s.miner_invalid_blocks)
    × (s.blocks_in_chain ≡ sum s.miner_valid_blocks)
unfolding skipped_message
receive_all-printed_example =
    receive_all-printed add_nat 0 (λ total count. []) 1 2 some_cut_off (omega arith)
      (skipped-IsKnown, (skipped-IsKnown, (skipped-IsKnown, tt)))
