-- ===== src/Validator/Blocks.antt =====
-- The parts of validator of src/Validator.c under the semaphore of the ledger: the first block, the
-- copy of the last hash, and the block that is appended. The ledger's pointers into the segment are
-- the record itself; an index past the blocks of the ledger is a fault, since the source has no test.
pub mod Stored
pub mod Hashes
pub mod Linked
pub mod Start
use projeto_so.Base.{
  ℕ, zero, suc, ◌+◌, ◌≡◌, Bool, true, false, List, [], ◌∷◌, Option, none, some, ◌==◌, if◌then◌else◌,
  get_elem?, set, replicate, strn_eq, take, u32, not,
}
use projeto_so.Libc.{strcpy}
use projeto_so.Chain.{Transaction, TransactionBlock, Ledger, tx_id_len, txb_id_len, hash_size}
use projeto_so.Pow.{PowResult, proof_of_work}

abbrev pub zero_transaction : Transaction
zero_transaction = record { tx_id = replicate tx_id_len 0; reward = 0; value = 0; timestamp = 0 }

-- A block of NULs: `nemesis_block`, and the blocks of a new ledger.
abbrev pub zero_block : ℕ → TransactionBlock
zero_block n = record {
  txb_id = replicate txb_id_len 0;
  previous_block_hash = replicate hash_size 0;
  timestamp = 0;
  nonce = 0;
  transactions = replicate n zero_transaction;
}

unfoldable pub store_transaction : Transaction → Transaction → Transaction
store_transaction old t = record {
  tx_id = strcpy old.tx_id t.tx_id;
  reward = t.reward;
  value = t.value;
  timestamp = t.timestamp;
}

-- The loop that copies the transactions into those of the ledger's block.
unfoldable pub store_transactions : List Transaction → List Transaction → List Transaction
store_transactions [] ts = []
store_transactions (old ∷ olds) [] = old ∷ olds
store_transactions (old ∷ olds) (t ∷ ts) = store_transaction old t ∷ store_transactions olds ts

unfoldable pub store_block : ℕ → TransactionBlock → TransactionBlock → TransactionBlock
store_block n old b = record {
  txb_id = strcpy old.txb_id b.txb_id;
  previous_block_hash = strcpy old.previous_block_hash b.previous_block_hash;
  timestamp = b.timestamp;
  nonce = b.nonce;
  transactions = store_transactions old.transactions (take n b.transactions);
}

pub data Appended : Type 0 where
  superseded : Appended
  appended : (index : ℕ) → Ledger → Appended
  out_of_bounds : Appended

unfoldable pub write_block : ℕ → List ℕ → TransactionBlock → Ledger → Appended
write_block n hash b l =
    let next_index = u32 (l.last_block_index + 1) in
    elim (get_elem? l.blocks next_index) [
      | none ↦ out_of_bounds
      | some old ↦ appended next_index (record l {
        blocks = set l.blocks next_index (store_block n old b);
        last_block_hash = strcpy l.last_block_hash hash;
        count = u32 (l.count + 1);
        last_block_index = next_index;
      })
    ]

-- The second check of the previous hash, and the block that is written behind the last one.
unfoldable pub append_block : ℕ → List ℕ → TransactionBlock → Ledger → Appended
unfolding write_block
append_block n hash b l =
    if strn_eq hash_size b.previous_block_hash l.last_block_hash
    then write_block n hash b l
    else superseded

pub data Started : Type 0 where
  started : Ledger → Started
  no_hash : Started
  no_fuel : Started
  no_block : Started

unfoldable pub store_first : PowResult → TransactionBlock → Ledger → Started
store_first r nemesis l = elim r.hash [
  | none ↦ no_hash
  | some hash ↦ elim (get_elem? l.blocks 0) [
    | none ↦ no_block
    | some old ↦ started (record l {
      count = 1;
      blocks = set l.blocks 0 (record old {
        txb_id = strcpy (set old.txb_id 0 b'z') nemesis.txb_id;
        timestamp = nemesis.timestamp;
        nonce = nemesis.nonce;
      });
      last_block_hash = strcpy l.last_block_hash hash;
    })
  ]
]

unfoldable pub started_from : Option (PowResult × TransactionBlock) → Ledger → Started
started_from none l = no_fuel
started_from (some (r, nemesis)) l = if r.error == 0 then store_first r nemesis l else no_hash

-- What a validator does with the ledger before its loop; `sha` is SHA256.
unfoldable pub start_ledger : (List ℕ → List ℕ) → ℕ → Ledger → Started
start_ledger sha n l =
    if l.count == 0 then started_from (proof_of_work sha n (zero_block n)) l else started l

-- The ledger that main of src/Controller.c sets up: all NULs but the number of blocks.
unfoldable pub new_ledger : ℕ → ℕ → Ledger
new_ledger n blockchain_blocks = record {
  last_block_index = 0;
  last_block_hash = replicate hash_size 0;
  num_blocks = blockchain_blocks;
  count = 0;
  blocks = replicate blockchain_blocks (zero_block n);
}
