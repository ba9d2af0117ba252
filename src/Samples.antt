-- ===== src/Samples.antt =====
-- Concrete data for the tests of the modules: a hash function that gives one digest, a pool with one
-- transaction, a ledger with its first block and a block that may follow it.
pub mod Systems
pub mod Controllers
use projeto_so.Base.{ℕ, ◌≡◌, refl, true, List, [], ◌∷◌, ◌++◌, arith, replicate, codes, c_str}
use projeto_so.Libc.Copy.{IsPadded}
use projeto_so.Chain.{
  Transaction, PendingTransaction, TransactionPool, TransactionBlock, Ledger, IsTransaction,
  IsBlock, tx_id_len,
}
use projeto_so.Pow.{
  compute_sha256, hex_digit, verify_nonce, check_difficulty, leading_zeros,
  get_max_transaction_reward, char_le_b, get_difficult_from_reward,
}
use projeto_so.Pow.Hash.{IsDigest, AllBytes}
use projeto_so.Pool.{IsPool, filled_count}
use projeto_so.TxGen.{Surroundings, Generator}
use projeto_so.Validator.Blocks.{zero_block}
use projeto_so.Validator.Blocks.Stored.{IsPaddedBlock}
use projeto_so.Validator.Blocks.Linked.{IsLinked}
use projeto_so.Validator.Blocks.Start.{first_ledger, first_ledger-IsLinked}

abbrev pub zero_sha : List ℕ → List ℕ
zero_sha m = replicate 32 0

AllBytes-zeros : AllBytes (replicate 32 0)
AllBytes-zeros = omega arith

pub zero_sha-IsDigest : IsDigest zero_sha
zero_sha-IsDigest = record { size = λ m. refl; bytes = λ m. AllBytes-zeros }

abbrev pub payment : Transaction
payment = record {
  tx_id = codes "TX-7-0" ++ replicate 58 0;
  reward = 2;
  value = 1065353216;
  timestamp = 1000;
}

abbrev pub payment_slot : PendingTransaction
payment_slot = record { filled = 1; age = 0; tx = payment }

abbrev pub free_slot_sample : PendingTransaction
free_slot_sample = record { filled = 0; age = 3; tx = payment }

abbrev pub pool_of_one : TransactionPool
pool_of_one = record {
  size = 2;
  count = 1;
  num_miners = 1;
  transactions_per_block = 1;
  transactions = payment_slot ∷ free_slot_sample ∷ [];
}

pub pool_of_one-IsPool : IsPool pool_of_one
unfolding filled_count
pool_of_one-IsPool = record { slots = refl; counted = refl; small = omega arith }

-- The text of the only digest.
abbrev pub zero_hash : List ℕ
zero_hash = replicate 64 b'0' ++ 0 ∷ []

pub compute_sha256-zero : (b : TransactionBlock) → compute_sha256 zero_sha 1 b ≡ zero_hash
unfolding compute_sha256 hex_digit
compute_sha256-zero b = refl

abbrev pub ledger_of_one : Ledger
ledger_of_one = first_ledger zero_sha 1 2 (zero_block 1)

zero_block-verify : verify_nonce zero_sha 1 (zero_block 1) ≡ true
unfolding verify_nonce hex_digit check_difficulty leading_zeros get_max_transaction_reward char_le_b
    get_difficult_from_reward
zero_block-verify = refl

pub ledger_of_one-IsLinked : IsLinked zero_sha 1 ledger_of_one
ledger_of_one-IsLinked =
    first_ledger-IsLinked zero_sha 1 2 (zero_block 1) (omega arith) zero_block-verify

-- The block that thread 1 mines on the first block with the payment of the pool.
abbrev pub mined_block : TransactionBlock
mined_block = record {
  txb_id = codes "BLOCK-1-0" ++ replicate 55 0;
  previous_block_hash = zero_hash;
  timestamp = 2000;
  nonce = 0;
  transactions = payment ∷ [];
}

pub mined_block-verify : verify_nonce zero_sha 1 mined_block ≡ true
unfolding verify_nonce hex_digit check_difficulty leading_zeros get_max_transaction_reward char_le_b
    get_difficult_from_reward
mined_block-verify = refl

payment-IsPadded : IsPadded tx_id_len payment.tx_id
unfolding c_str
payment-IsPadded = record { room = omega arith; pad = refl }

pub mined_block-IsPaddedBlock : IsPaddedBlock 1 mined_block
unfolding c_str
mined_block-IsPaddedBlock = record {
  txb_id = record { room = omega arith; pad = refl };
  previous_block_hash = record { room = omega arith; pad = refl };
  how_many = refl;
  all = (payment-IsPadded, tt);
}

pub payment-IsTransaction : IsTransaction payment
payment-IsTransaction = record {
  tx_id = refl;
  reward = omega arith;
  value = omega arith;
  timestamp = omega arith;
}

pub mined_block-IsBlock : IsBlock 1 mined_block
mined_block-IsBlock = record {
  txb_id = refl;
  previous_block_hash = refl;
  timestamp = omega arith;
  nonce = omega arith;
  how_many = refl;
  all = (payment-IsTransaction, tt);
}

-- What a generator sees: process 9, a stack of NULs, and semaphore calls that succeed.
abbrev pub calm_surroundings : Surroundings
calm_surroundings = record {
  pid = 9;
  random = 250;
  now = 3000;
  stack = replicate 64 0;
  waited = true;
  posted = true;
}

abbrev pub new_generator : Generator
new_generator = record { tx_number = 0; generated_transactions = 0; last_signal_count = 0 }
