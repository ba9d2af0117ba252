-- ===== src/Pow/Hash.antt =====
-- serialize_block and compute_sha256 of src/PoW/pow.c: the size of the buffer, and the blocks of a
-- hash.
use projeto_so.Base.{
  ℕ, ◌+◌, ◌*◌, ◌/◌, ◌%◌, ◌<◌, ◌≡◌, ◌≢◌, refl, sym, ap, ap₂, ◌∙◌, ◌⊎◌, inl, inr, List, [], ◌∷◌, ◌++◌,
  arith, length, length-append, length-le_bytes, take, take-length, append_inj, le_bytes,
  le_bytes_inj, bytes_eq-cases,
}
use projeto_so.Chain.{Transaction, TransactionBlock, IsTransaction, AllTransactions, IsBlock}
use projeto_so.Chain.Layout.{transaction_size, get_transaction_block_size, pointer_size}
use projeto_so.Pow.{
  serialize_transaction, serialize_transactions, serialize_block, hex_digit, hex, compute_sha256,
}

pub length-serialize_transaction :
    (t : Transaction) → IsTransaction t → length (serialize_transaction t) ≡ transaction_size
unfolding serialize_transaction
length-serialize_transaction t v = omega (
  arith,
  v.tx_id,
  length-append t.tx_id (le_bytes 4 t.reward ++ (le_bytes 4 t.value ++ le_bytes 8 t.timestamp)),
  length-append (le_bytes 4 t.reward) (le_bytes 4 t.value ++ le_bytes 8 t.timestamp),
  length-append (le_bytes 4 t.value) (le_bytes 8 t.timestamp),
  length-le_bytes 4 t.reward,
  length-le_bytes 4 t.value,
  length-le_bytes 8 t.timestamp,
)

pub length-serialize_transactions :
    (ts : List Transaction)
    → AllTransactions ts
    → length (serialize_transactions ts) ≡ length ts * transaction_size
unfolding serialize_transactions
length-serialize_transactions [] v = refl
length-serialize_transactions (t ∷ ts) v = omega (
  arith,
  length-append (serialize_transaction t) (serialize_transactions ts),
  length-serialize_transaction t v.0,
  length-serialize_transactions ts v.1,
)

-- The buffer that serialize_block allocates, the size of the block without its pointer, is filled
-- exactly by a well-formed block.
length-serialize_block :
    (n : ℕ) (b : TransactionBlock)
    → IsBlock n b
    → length (serialize_block n b) + pointer_size ≡ get_transaction_block_size n
unfolding serialize_block get_transaction_block_size
length-serialize_block n b v = rw (take-length n b.transactions v.how_many) (
    omega (
      arith,
      v.txb_id,
      v.previous_block_hash,
      v.how_many,
      length-append b.txb_id (
          b.previous_block_hash
          ++ (le_bytes 8 b.timestamp
              ++ (serialize_transactions b.transactions ++ le_bytes 4 b.nonce))),
      length-append b.previous_block_hash
          (le_bytes 8 b.timestamp ++ (serialize_transactions b.transactions ++ le_bytes 4 b.nonce)),
      length-append (le_bytes 8 b.timestamp)
          (serialize_transactions b.transactions ++ le_bytes 4 b.nonce),
      length-append (serialize_transactions b.transactions) (le_bytes 4 b.nonce),
      length-serialize_transactions b.transactions v.all,
      length-le_bytes 8 b.timestamp,
      length-le_bytes 4 b.nonce,
    ))

pub serialize_transaction_inj :
    (t u : Transaction)
    → IsTransaction t
    → IsTransaction u
    → serialize_transaction t ≡ serialize_transaction u
    → t ≡ u
unfolding serialize_transaction
serialize_transaction_inj t u v w e =
    let (id_eq, e₁) = append_inj 64 _ _ _ _ v.tx_id w.tx_id e in
    let (reward_eq, e₂) =
      append_inj 4 _ _ _ _ (length-le_bytes 4 t.reward) (length-le_bytes 4 u.reward) e₁ in
    let (value_eq, time_eq) =
      append_inj 4 _ _ _ _ (length-le_bytes 4 t.value) (length-le_bytes 4 u.value) e₂ in
    let reward : t.reward ≡ u.reward = le_bytes_inj 4 _ _ v.reward w.reward reward_eq in
    let value : t.value ≡ u.value = le_bytes_inj 4 _ _ v.value w.value value_eq in
    let timestamp : t.timestamp ≡ u.timestamp =
      le_bytes_inj 8 _ _ v.timestamp w.timestamp time_eq in
    λ i. record { tx_id = id_eq i; reward = reward i; value = value i; timestamp = timestamp i }

pub serialize_transactions_inj :
    (ts us : List Transaction)
    → AllTransactions ts
    → AllTransactions us
    → length ts ≡ length us
    → serialize_transactions ts ≡ serialize_transactions us
    → ts ≡ us
unfolding serialize_transactions
serialize_transactions_inj [] [] v w h e = refl
serialize_transactions_inj [] (u ∷ us) v w h e = absurd (omega arith)
serialize_transactions_inj (t ∷ ts) [] v w h e = absurd (omega arith)
serialize_transactions_inj (t ∷ ts) (u ∷ us) v w h e =
    let (head_eq, tail_eq) =
      append_inj 80 _ _ _ _ (length-serialize_transaction t v.0)
        (length-serialize_transaction u w.0) e in
    ap₂ ◌∷◌ (serialize_transaction_inj t u v.0 w.0 head_eq)
      (serialize_transactions_inj ts us v.1 w.1 (omega arith) tail_eq)

-- Two blocks of as many transactions with the same bytes are the same block.
pub serialize_block_inj :
    (n : ℕ) (b c : TransactionBlock)
    → IsBlock n b
    → IsBlock n c
    → serialize_block n b ≡ serialize_block n c
    → b ≡ c
unfolding serialize_block
serialize_block_inj n b c v w e =
    let (id_eq, e₁) = append_inj 64 _ _ _ _ v.txb_id w.txb_id e in
    let (prev_eq, e₂) = append_inj 65 _ _ _ _ v.previous_block_hash w.previous_block_hash e₁ in
    let (time_eq, e₃) =
      append_inj 8 _ _ _ _ (length-le_bytes 8 b.timestamp) (length-le_bytes 8 c.timestamp) e₂ in
    let (txs_eq, nonce_eq) = append_inj (n * transaction_size) _ _ _ _ (sized b v) (sized c w) e₃ in
    let timestamp : b.timestamp ≡ c.timestamp =
      le_bytes_inj 8 _ _ v.timestamp w.timestamp time_eq in
    let nonce : b.nonce ≡ c.nonce = le_bytes_inj 4 _ _ v.nonce w.nonce nonce_eq in
    let txs : b.transactions ≡ c.transactions =
      serialize_transactions_inj _ _ v.all w.all (v.how_many ∙ sym w.how_many) (
        ap serialize_transactions (sym (take-length n _ v.how_many))
        ∙ txs_eq
        ∙ ap serialize_transactions (take-length n _ w.how_many)) in
    λ i. record {
      txb_id = id_eq i;
      previous_block_hash = prev_eq i;
      timestamp = timestamp i;
      nonce = nonce i;
      transactions = txs i;
    }
  where
    sized :
        (d : TransactionBlock)
        → IsBlock n d
        → length (serialize_transactions (take n d.transactions)) ≡ n * transaction_size
    sized d u =
        rw (take-length n d.transactions u.how_many)
          (omega (arith, length-serialize_transactions d.transactions u.all, u.how_many))

-- What SHA256 returns: 32 bytes.
abbrev pub AllBytes : List ℕ → Type 0
AllBytes [] = Unit {0}
AllBytes (b ∷ bs) = (b < 256) × AllBytes bs

pub record IsDigest (sha : List ℕ → List ℕ) : Type 0 where
  pub size : (m : List ℕ) → length (sha m) ≡ 32
  pub bytes : (m : List ℕ) → AllBytes (sha m)

pub length-hex : (bs : List ℕ) → length (hex bs) ≡ 2 * length bs
unfolding hex
length-hex [] = refl
length-hex (b ∷ bs) = omega (arith, length-hex bs)

hex_digit_inj : (a b : ℕ) → a < 16 → b < 16 → hex_digit a ≡ hex_digit b → a ≡ b
unfolding hex_digit
hex_digit_inj a b ha hb e = ground arith

hex_byte_inj :
    (a b : ℕ)
    → a < 256
    → b < 256
    → hex_digit (a / 16) ≡ hex_digit (b / 16)
    → hex_digit (a % 16) ≡ hex_digit (b % 16)
    → a ≡ b
hex_byte_inj a b ha hb hi lo = omega (
  arith,
  hex_digit_inj (a / 16) (b / 16) (omega arith) (omega arith) hi,
  hex_digit_inj (a % 16) (b % 16) (omega arith) (omega arith) lo,
)

hex_inj : (as' bs : List ℕ) → AllBytes as' → AllBytes bs → hex as' ≡ hex bs → as' ≡ bs
unfolding hex
hex_inj [] [] v w e = refl
hex_inj [] (b ∷ bs) v w e = cc
hex_inj (a ∷ as') [] v w e = cc
hex_inj (a ∷ as') (b ∷ bs) v w e =
    ap₂ ◌∷◌ (hex_byte_inj a b v.0 w.0 (cc) (cc)) (hex_inj as' bs v.1 w.1 (cc))

module _ (sha : List ℕ → List ℕ) (digest : IsDigest sha) (n : ℕ) where
  -- The text of a hash and its NUL fill the HASH_SIZE bytes of the buffers.
  pub length-compute_sha256 : (b : TransactionBlock) → length (compute_sha256 sha n b) ≡ 65
  unfolding compute_sha256
  length-compute_sha256 b = omega (
    arith,
    length-append (hex (sha (serialize_block n b))) (0 ∷ []),
    length-hex (sha (serialize_block n b)),
    digest.size (serialize_block n b),
  )

  -- Two well-formed blocks with the same hash are the same block in every field and transaction,
  -- unless their bytes are a collision of SHA256, which gives 32 bytes.
  pub compute_sha256_binds :
      (b c : TransactionBlock)
      → IsBlock n b
      → IsBlock n c
      → compute_sha256 sha n b ≡ compute_sha256 sha n c
      → (b ≡ c)
        ⊎ ((serialize_block n b ≢ serialize_block n c)
            × (sha (serialize_block n b) ≡ sha (serialize_block n c)))
  unfolding compute_sha256
  compute_sha256_binds b c v w e =
      elim (bytes_eq-cases (serialize_block n b) (serialize_block n c)) [
        | inl same ↦ inl (serialize_block_inj n b c v w same)
        | inr other ↦ inr (
          other,
          hex_inj _ _ (digest.bytes _) (digest.bytes _)
              (append_inj 64 _ _ _ _ (text b) (text c) e).0,
        )
      ]
    where
      text : (d : TransactionBlock) → length (hex (sha (serialize_block n d))) ≡ 64
      text d =
          omega (arith, length-hex (sha (serialize_block n d)), digest.size (serialize_block n d))

pub hex_digit_pos : (d : ℕ) → 0 < hex_digit d
unfolding hex_digit
hex_digit_pos d = ground arith
