-- ===== src/Miner/Tests.antt =====
-- Examples for src/Miner.c.
use projeto_so.Base.{
  ℕ, ◌≡◌, ◌++◌, ap, codes, get_elem?, refl, inl, inr, true, false, [], ◌∷◌, some, arith, replicate,
  str_eq, c_str,
}
use projeto_so.Libc.{strncpy, snprintf, format_int, digits}
use projeto_so.Chain.{TransactionBlock}
use projeto_so.Pow.{
  compute_sha256, hex_digit, verify_nonce, check_difficulty, leading_zeros,
  get_max_transaction_reward, char_le_b, get_difficult_from_reward, proof_of_work,
}
use projeto_so.Pipe.{encode_block}
use projeto_so.Validator.System.{Minable, Reach}
use projeto_so.Validator.Transactions.{verify_transactions}
use projeto_so.Validator.Blocks.Linked.{extended}
use projeto_so.Validator.Round.{reading}
use projeto_so.Validator.Messages.{inserted_message, mq_send}
use projeto_so.Validator.System.{System}
use projeto_so.Miner.Threads.{miner_thread-distinct}
use projeto_so.Miner.Accepted.{UniqueIds, AllNumbers, AllCopies-verify}
use projeto_so.Miner.Progress.{mine_round-progress}
use projeto_so.Samples.Systems.{at_start, at_start-IsSound}
use projeto_so.Floats.{is_nan}
use projeto_so.Validator.Messages.MinerId.{block_id}
use projeto_so.Miner.{
  block_name, build_block, select_transaction, select_from, select_transactions, has_work,
  copy_last_hash, mine_block, Sights, wrote, mine_round, mine_selected, write_to_pipe, mine_rounds,
  miner_thread,
}
use projeto_so.Miner.Selection.{AllCopies, AllTerminated, select_transactions-AllCopies}
use projeto_so.Miner.Rounds.{mine_round-Minable}
use projeto_so.Samples.{
  zero_sha, zero_sha-IsDigest, payment, payment_slot, pool_of_one, ledger_of_one,
  ledger_of_one-IsLinked, mined_block,
}

one_selected : select_transactions 1 (1 ∷ 4 ∷ []) pool_of_one ≡ some (payment ∷ [])
unfolding select_transactions select_from select_transaction str_eq strncpy c_str
one_selected = refl

payment_selected : select_transaction payment_slot ≡ some payment
unfolding select_transaction str_eq strncpy c_str
payment_selected = refl

good_at_once :
    check_difficulty
      (compute_sha256 zero_sha 1 mined_block)
      (get_max_transaction_reward (some mined_block) 1)
    ≡ true
unfolding compute_sha256 hex_digit check_difficulty leading_zeros get_max_transaction_reward
    char_le_b get_difficult_from_reward
good_at_once = refl

mined : mine_block zero_sha 1 ((2000, false) ∷ []) mined_block ≡ some mined_block
unfolding mine_block proof_of_work hex_digit check_difficulty leading_zeros
    get_max_transaction_reward char_le_b get_difficult_from_reward
mined = refl

abbrev one_round : Sights
one_round = record {
  tx_count = 1;
  ledger_count = 1;
  pool = pool_of_one;
  ledger = ledger_of_one;
  draws = 0 ∷ [];
  attempts = (2000, false) ∷ [];
}

pool_of_one-AllTerminated : AllTerminated pool_of_one.transactions
unfolding c_str
pool_of_one-AllTerminated = (omega arith, (omega arith, tt))

block_written :
    mine_round zero_sha 1 3 1 0 one_round ≡ wrote 1 mined_block (encode_block 1 mined_block)
unfolding mine_round has_work mine_selected copy_last_hash write_to_pipe mine_block build_block
    block_name snprintf format_int select_transactions select_from select_transaction str_eq strncpy
    c_str proof_of_work hex_digit check_difficulty leading_zeros get_max_transaction_reward
    char_le_b get_difficult_from_reward
block_written = refl

mine_round-Minable_example :
    Minable zero_sha 1 ledger_of_one mined_block
    × (verify_nonce zero_sha 1 mined_block ≡ true)
    × AllCopies pool_of_one.transactions mined_block.transactions
    × (mined_block.txb_id ≡ block_id 1 0)
    × (encode_block 1 mined_block ≡ encode_block 1 mined_block)
mine_round-Minable_example =
    mine_round-Minable zero_sha 1 3 1 0 one_round 1 mined_block (encode_block 1 mined_block)
      zero_sha-IsDigest ledger_of_one-IsLinked refl pool_of_one-AllTerminated (omega arith)
      (omega arith) (refl, tt) block_written

payment_copied : AllCopies pool_of_one.transactions (payment ∷ [])
payment_copied =
    (select_transactions-AllCopies 1 (1 ∷ 4 ∷ []) pool_of_one (payment ∷ []) one_selected).1

pool_of_one-UniqueIds : UniqueIds pool_of_one.transactions
pool_of_one-UniqueIds = (inr (inl refl, tt), (inl refl, tt))

pool_of_one-AllNumbers : AllNumbers pool_of_one.transactions
unfolding is_nan
pool_of_one-AllNumbers = (refl, (refl, tt))

AllCopies-verify_example : verify_transactions (payment ∷ []) pool_of_one.transactions ≡ true
AllCopies-verify_example =
    AllCopies-verify pool_of_one.transactions (payment ∷ []) pool_of_one-UniqueIds
      pool_of_one-AllNumbers pool_of_one-AllTerminated payment_copied

mine_round-progress_example :
    (t : System) × Reach zero_sha 1 at_start t
    × (t.ledger ≡ extended zero_sha 1 mined_block ledger_of_one)
    × (t.phase 4 ≡ reading)
    × (t.queue ≡ mq_send [] (inserted_message 1 mined_block 1 50))
mine_round-progress_example =
    mine_round-progress zero_sha 1 3 1 0 1 4 50 at_start one_round mined_block
      (encode_block 1 mined_block) zero_sha-IsDigest at_start-IsSound refl refl refl refl refl
      pool_of_one-AllTerminated pool_of_one-UniqueIds pool_of_one-AllNumbers (omega arith)
      (omega arith) (refl, tt) block_written

-- Two rounds of one thread on the same pool and ledger give the blocks 0 and 1.
abbrev second_block : TransactionBlock
second_block = record mined_block { txb_id = codes "BLOCK-1-1" ++ replicate 55 0 }

two_rounds :
    miner_thread zero_sha 1 3 1 (one_round ∷ one_round ∷ []) ≡ mined_block ∷ second_block ∷ []
unfolding miner_thread mine_rounds mine_round has_work mine_selected copy_last_hash write_to_pipe
    mine_block build_block block_name snprintf format_int digits select_transactions select_from
    select_transaction str_eq strncpy c_str proof_of_work hex_digit check_difficulty leading_zeros
    get_max_transaction_reward char_le_b get_difficult_from_reward
two_rounds = refl

miner_thread-distinct_example : (◌≡◌ {A = ℕ} 1 1) × (◌≡◌ {A = ℕ} 1 1)
miner_thread-distinct_example =
    miner_thread-distinct zero_sha 1 3 1 1 (one_round ∷ one_round ∷ []) (one_round ∷ one_round ∷ [])
      1 1 second_block second_block (omega arith) (omega arith) ((refl, tt), ((refl, tt), tt))
      ((refl, tt), ((refl, tt), tt)) (omega arith) (omega arith)
      (ap (λ bs. get_elem? bs 1) two_rounds) (ap (λ bs. get_elem? bs 1) two_rounds) refl
