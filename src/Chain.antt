-- ===== src/Chain.antt =====
-- The data that the processes share: include/Controller.h.
pub mod Layout
use projeto_so.Base.{ℕ, ◌≡◌, ◌<◌, ◌^◌, List, length}

abbrev pub tx_id_len : ℕ
tx_id_len = 64

-- SHA256_DIGEST_LENGTH * 2 + 1
abbrev pub hash_size : ℕ
hash_size = 65

abbrev pub txb_id_len : ℕ
txb_id_len = 64

-- A char array is the list of its bytes; an integer or float field is the bit pattern of its type.
pub record Transaction : Type 0 where
  pub tx_id : List ℕ
  pub reward : ℕ
  pub value : ℕ
  pub timestamp : ℕ

pub record PendingTransaction : Type 0 where
  pub filled : ℕ
  pub age : ℕ
  pub tx : Transaction

-- The header of the pool's segment with the slots behind it.
pub record TransactionPool : Type 0 where
  pub size : ℕ
  pub count : ℕ
  pub num_miners : ℕ
  pub transactions_per_block : ℕ
  pub transactions : List PendingTransaction

-- A block, with the transactions that its pointer or its offset leads to.
pub record TransactionBlock : Type 0 where
  pub txb_id : List ℕ
  pub previous_block_hash : List ℕ
  pub timestamp : ℕ
  pub nonce : ℕ
  pub transactions : List Transaction

pub record Ledger : Type 0 where
  pub last_block_index : ℕ
  pub last_block_hash : List ℕ
  pub num_blocks : ℕ
  pub count : ℕ
  pub blocks : List TransactionBlock

pub record StatisticsMessage : Type 0 where
  pub txb_id : List ℕ
  pub miner_id : List ℕ
  pub block_index : ℕ
  pub earned_amount : ℕ
  pub timestamp : ℕ

-- The values that the fields of a `Transaction` can hold.
pub record IsTransaction (t : Transaction) : Type 0 where
  pub tx_id : length t.tx_id ≡ tx_id_len
  pub reward : t.reward < 2 ^ 32
  pub value : t.value < 2 ^ 32
  pub timestamp : t.timestamp < 2 ^ 64

abbrev pub AllTransactions : List Transaction → Type 0
AllTransactions List.[] = Unit {0}
AllTransactions (List.◌∷◌ t ts) = IsTransaction t × AllTransactions ts

-- The values that the fields of a `TransactionBlock` of `n` transactions can hold.
pub record IsBlock (n : ℕ) (b : TransactionBlock) : Type 0 where
  pub txb_id : length b.txb_id ≡ txb_id_len
  pub previous_block_hash : length b.previous_block_hash ≡ hash_size
  pub timestamp : b.timestamp < 2 ^ 64
  pub nonce : b.nonce < 2 ^ 32
  pub how_many : length b.transactions ≡ n
  pub all : AllTransactions b.transactions
