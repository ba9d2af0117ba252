-- ===== src/Pipe.antt =====
-- The validation pipe: the bytes that a miner thread writes for a block (src/Miner.c) and the block
-- that the validator builds from what it reads (src/Validator.c).
pub mod RoundTrip
pub mod Stream
pub mod Tests
use projeto_so.Base.{
  ℕ, zero, suc, ◌+◌, ◌-◌, ◌*◌, ◌≡◌, Bool, true, false, List, [], ◌∷◌, ◌++◌, Option, none, some, ltb,
  ◌==◌, if◌then◌else◌, length, take, drop, le_bytes, of_le_bytes, u64,
}
use projeto_so.Chain.{Transaction, TransactionBlock, txb_id_len, hash_size}
use projeto_so.Chain.Layout.{block_size, pointer_size, transaction_size}
use projeto_so.Pow.{serialize_transactions}

-- The bytes of a `TransactionBlock` up to its last member, the pointer; nothing follows that.
unfoldable pub header_bytes : TransactionBlock → List ℕ
header_bytes b =
    b.txb_id ++ (b.previous_block_hash ++ (le_bytes 8 b.timestamp ++ le_bytes 4 b.nonce))

abbrev pub header_size : ℕ
header_size = block_size - pointer_size

unfoldable pub payload_size : ℕ → ℕ
payload_size n = header_size + transaction_size * n

-- The buffer of a miner thread for a block of `n` transactions.
unfoldable pub encode_block : ℕ → TransactionBlock → List ℕ
unfolding header_bytes payload_size
encode_block n b =
    le_bytes 8 (payload_size n)
    ++ (header_bytes b ++ serialize_transactions (take n b.transactions))

unfoldable pub max_block_size : ℕ → ℕ
max_block_size n = 8 + (header_size + n * transaction_size)

unfoldable pub parse_transaction : List ℕ → Transaction
parse_transaction bytes = record {
  tx_id = take 64 bytes;
  reward = of_le_bytes (take 4 (drop 64 bytes));
  value = of_le_bytes (take 4 (drop 68 bytes));
  timestamp = of_le_bytes (take 8 (drop 72 bytes));
}

unfoldable pub parse_transactions : ℕ → List ℕ → List Transaction
unfolding parse_transaction
parse_transactions zero bytes = []
parse_transactions (suc n) bytes = parse_transaction bytes ∷ parse_transactions n (drop 80 bytes)

-- `streamed_block` after the two copies out of the payload.
unfoldable pub parse_payload : ℕ → List ℕ → TransactionBlock
unfolding parse_transactions
parse_payload n payload = record {
  txb_id = take 64 payload;
  previous_block_hash = take 65 (drop 64 payload);
  timestamp = of_le_bytes (take 8 (drop 129 payload));
  nonce = of_le_bytes (take 4 (drop 137 payload));
  transactions = parse_transactions n (drop 141 payload);
}

pub data Received : Type 0 where
  end_of_input too_small bad_size : Received
  received : TransactionBlock → Received

-- The checks on the bytes of one `read`.
unfoldable pub decode_block : ℕ → List ℕ → Received
decode_block n buffer =
    let size = of_le_bytes (take 8 buffer) in
    if length buffer == 0
    then end_of_input
    else if ltb (length buffer) 8
    then too_small
    else if length buffer == u64 (8 + size)
    then received (parse_payload n (drop 8 buffer))
    else bad_size

-- A `read` takes what the pipe holds, up to the size of the buffer, and leaves the rest.
unfoldable pub read_block : ℕ → List ℕ → Received × List ℕ
read_block n pipe = (decode_block n (take (max_block_size n) pipe), drop (max_block_size n) pipe)

-- The validator's loop over the pipe: the blocks that it takes from it before it leaves the loop.
-- Every round takes at least one byte, so the fuel of `length pipe + 1` is enough.
unfoldable pub read_blocks : ℕ → ℕ → List ℕ → List TransactionBlock
read_blocks zero n pipe = []
read_blocks (suc fuel) n pipe =
    let rest = read_blocks fuel n (read_block n pipe).1 in
    elim (read_block n pipe).0 [ received b ↦ b ∷ rest | _ ↦ [] ]
