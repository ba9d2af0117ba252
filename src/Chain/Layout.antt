-- ===== src/Chain/Layout.antt =====
-- The sizes of the structs of include/Controller.h on an LP64 machine, computed from their fields
-- by the rules of the C ABI.
use projeto_so.Base.{ℕ, ◌+◌, ◌-◌, ◌*◌, ◌/◌, ◌≡◌, refl, List, [], ◌∷◌}

-- A field's size and alignment.
abbrev Field : Type 0
Field = ℕ × ℕ

unfoldable pub align_up : ℕ → ℕ → ℕ
align_up n a = (n + a - 1) / a * a

-- The end of the last field when the first may stand at `at`.
unfoldable pub fields_end : ℕ → List Field → ℕ
unfolding align_up
fields_end at [] = at
fields_end at ((size, align) ∷ fs) = fields_end (align_up at align + size) fs

abbrev chars : ℕ → Field
chars n = (n, 1)

abbrev int : Field
int = (4, 4)

abbrev long : Field
long = (8, 8)

-- In a packed struct every field has alignment 1.
abbrev packed : ℕ → Field
packed n = (n, 1)

-- tx_id, reward, value, timestamp
abbrev pub transaction_fields : List Field
transaction_fields = chars 64 ∷ int ∷ int ∷ long ∷ []

-- filled, age, tx
abbrev pub pending_fields : List Field
pending_fields = int ∷ int ∷ (80, 8) ∷ []

-- size, count, num_miners, transactions_per_block, transactions_offset
abbrev pub pool_fields : List Field
pool_fields = int ∷ int ∷ int ∷ int ∷ long ∷ []

-- txb_id, previous_block_hash, timestamp, nonce, transactions_offset
abbrev pub block_shm_fields : List Field
block_shm_fields = chars 64 ∷ chars 65 ∷ long ∷ int ∷ long ∷ []

-- last_block_index, last_block_hash, num_blocks, count, blocks_offset
abbrev pub ledger_fields : List Field
ledger_fields = int ∷ chars 65 ∷ int ∷ int ∷ long ∷ []

-- txb_id, previous_block_hash, timestamp, nonce, transactions; packed
abbrev pub block_fields : List Field
block_fields = chars 64 ∷ chars 65 ∷ packed 8 ∷ packed 4 ∷ packed 8 ∷ []

-- txb_id, miner_id, block_index, earned_amount, timestamp; packed
abbrev pub message_fields : List Field
message_fields = chars 64 ∷ chars 7 ∷ packed 4 ∷ packed 4 ∷ packed 8 ∷ []

unfoldable pub sizeof : ℕ → List Field → ℕ
unfolding fields_end
sizeof align fs = align_up (fields_end 0 fs) align

abbrev pub transaction_size : ℕ
transaction_size = 80

abbrev pub pending_size : ℕ
pending_size = 88

abbrev pub pool_header_size : ℕ
pool_header_size = 24

abbrev pub block_shm_size : ℕ
block_shm_size = 160

abbrev pub ledger_header_size : ℕ
ledger_header_size = 88

abbrev pub block_size : ℕ
block_size = 149

abbrev pub message_size : ℕ
message_size = 87

abbrev pub pointer_size : ℕ
pointer_size = 8

sizes :
    (sizeof 8 transaction_fields ≡ transaction_size)
    × (sizeof 8 pending_fields ≡ pending_size)
    × (sizeof 8 pool_fields ≡ pool_header_size)
    × (sizeof 8 block_shm_fields ≡ block_shm_size)
    × (sizeof 8 ledger_fields ≡ ledger_header_size)
    × (sizeof 1 block_fields ≡ block_size)
    × (sizeof 1 message_fields ≡ message_size)
unfolding sizeof
sizes = (refl, refl, refl, refl, refl, refl, refl)

-- get_transaction_block_size, where TRANSACTIONS_PER_BLOCK is not 0.
unfoldable pub get_transaction_block_size : ℕ → ℕ
get_transaction_block_size n = block_size + n * transaction_size
