-- ===== src/Pipe/Stream.antt =====
-- The reads of src/Validator.c from the pipe, one after the other.
use projeto_so.Base.{
  ℕ, zero, suc, ◌+◌, ◌<◌, ◌≤◌, ◌^◌, ◌≡◌, ◌≢◌, refl, ap, ◌∙◌, List, [], ◌∷◌, ◌++◌, arith, length,
  length-le_bytes, length-take, take, drop, take-append_length, drop-append_length, le_bytes,
  of_le_bytes, of_le_bytes-le_bytes, dec_lt,
}
use projeto_so.Chain.{TransactionBlock, IsBlock}
use projeto_so.Pipe.{
  payload_size, encode_block, max_block_size, Received, end_of_input, received, decode_block,
  read_block, read_blocks,
}
use projeto_so.Pipe.RoundTrip.{payload, parse_payload-encode, length-encode_block}

size_of :
    (n : ℕ) (b : TransactionBlock)
    → n < 2 ^ 32
    → of_le_bytes (take 8 (encode_block n b)) ≡ payload_size n
unfolding encode_block payload_size
size_of n b small =
    ap of_le_bytes (
      take-append_length 8 (le_bytes 8 (payload_size n)) (payload n b)
        (length-le_bytes 8 (payload_size n)))
    ∙ of_le_bytes-le_bytes 8 (payload_size n) (omega arith)

body_of : (n : ℕ) (b : TransactionBlock) → drop 8 (encode_block n b) ≡ payload n b
unfolding encode_block
body_of n b =
    drop-append_length 8 (le_bytes 8 (payload_size n)) (payload n b)
      (length-le_bytes 8 (payload_size n))

sizes : (n : ℕ) → (8 + payload_size n ≡ max_block_size n) × (141 ≤ payload_size n)
unfolding payload_size max_block_size
sizes n = omega arith

max_block_size-lt : (n : ℕ) → n < 2 ^ 32 → max_block_size n < 2 ^ 64
unfolding max_block_size
max_block_size-lt n h = omega arith

pub decode_block-encode :
    (n : ℕ) (b : TransactionBlock)
    → n < 2 ^ 32
    → IsBlock n b
    → decode_block n (encode_block n b) ≡ received b
unfolding decode_block
decode_block-encode n b small v = ground (
  arith,
  length-encode_block n b v,
  size_of n b small,
  sizes n,
  max_block_size-lt n small,
  body_of n b,
  parse_payload-encode n b v,
)

-- A block that a miner thread wrote is the next one that the validator reads, in every field and
-- every byte, and the read leaves what was written behind it.
pub read_block-encode :
    (n : ℕ) (b : TransactionBlock) (rest : List ℕ)
    → n < 2 ^ 32
    → IsBlock n b
    → read_block n (encode_block n b ++ rest) ≡ (received b, rest)
unfolding read_block
read_block-encode n b rest small v = λ i. (
  (ap (decode_block n) (
          take-append_length (max_block_size n) (encode_block n b) rest (length-encode_block n b v))
        ∙ decode_block-encode n b small v)
      i,
  drop-append_length (max_block_size n) (encode_block n b) rest (length-encode_block n b v) i,
)

-- The pipe after the miner threads wrote these blocks.
pub written : ℕ → List TransactionBlock → List ℕ
written n [] = []
written n (b ∷ bs) = encode_block n b ++ written n bs

abbrev pub AllBlocks : ℕ → List TransactionBlock → Type 0
AllBlocks n [] = Unit {0}
AllBlocks n (b ∷ bs) = IsBlock n b × AllBlocks n bs

take-nil : (m : ℕ) → take {A = ℕ} m [] ≡ []
take-nil zero = refl
take-nil (suc m) = refl

read_block-nil : (n : ℕ) → (read_block n []).0 ≡ end_of_input
unfolding read_block decode_block
read_block-nil n = rw (take-nil (max_block_size n))

read_blocks-received :
    (fuel n : ℕ) (pipe : List ℕ) {rest : List ℕ} {b : TransactionBlock}
    → read_block n pipe ≡ (received b, rest)
    → read_blocks (suc fuel) n pipe ≡ b ∷ read_blocks fuel n rest
unfolding read_blocks
read_blocks-received fuel n pipe e = ap next e
  where
    next : Received × List ℕ → List TransactionBlock
    next r = elim r.0 [ received b ↦ b ∷ read_blocks fuel n r.1 | _ ↦ [] ]

-- The validator takes from the pipe exactly the well-formed blocks that were written to it, in
-- their order, for fewer than 2^32 transactions in a block and fuel of more than the number of
-- blocks.
pub read_blocks-written :
    (fuel n : ℕ) (bs : List TransactionBlock)
    → n < 2 ^ 32
    → AllBlocks n bs
    → length bs < fuel
    → read_blocks fuel n (written n bs) ≡ bs
unfolding read_blocks written
read_blocks-written zero n bs small v h = absurd (omega arith)
read_blocks-written (suc fuel) n [] small v h = rw (read_block-nil n, read_blocks)
read_blocks-written (suc fuel) n (b ∷ bs) small v h =
    read_blocks-received fuel n (written n (b ∷ bs))
      (read_block-encode n b (written n bs) small v.0)
    ∙ (ap (◌∷◌ b) (read_blocks-written fuel n bs small v.1 (omega arith)))

take-take : (k m : ℕ) (xs : List ℕ) → m ≤ k → take m (take k xs) ≡ take m xs
take-take k zero xs h = refl
take-take zero (suc m) xs h = absurd (omega arith)
take-take (suc k) (suc m) [] h = refl
take-take (suc k) (suc m) (x ∷ xs) h = ap (◌∷◌ x) (take-take k m xs (omega arith))

-- If fewer bytes of a well-formed block's message arrive than were written, the validator takes no
-- block from them, for fewer than 2^32 transactions in a block.
pub decode_block-truncated :
    (n k : ℕ) (b c : TransactionBlock)
    → n < 2 ^ 32
    → IsBlock n b
    → k < max_block_size n
    → decode_block n (take k (encode_block n b)) ≢ received c
unfolding decode_block
decode_block-truncated n k b c small v h = elim (dec_lt k 8) [
  | yes few ↦ ground (arith, length-take k (encode_block n b), length-encode_block n b v)
  | no more ↦ ground (
    arith,
    length-take k (encode_block n b),
    length-encode_block n b v,
    take-take k 8 (encode_block n b) (omega arith),
    size_of n b small,
    sizes n,
    max_block_size-lt n small,
  )
]
