-- ===== src/Pipe/RoundTrip.antt =====
-- The payload of a block, as src/Miner.c writes it and src/Validator.c reads it.
use projeto_so.Base.{
  ℕ, zero, suc, ◌+◌, ◌≡◌, refl, ap, ap₂, ◌∙◌, List, [], ◌∷◌, ◌++◌, arith, length, length-append,
  length-le_bytes, take, drop, take-length, take-append_length, drop-append_length, le_bytes,
  of_le_bytes, of_le_bytes-le_bytes,
}
use mathlib.Core.List.{append_assoc}
use projeto_so.Chain.{Transaction, TransactionBlock, IsTransaction, AllTransactions, IsBlock}
use projeto_so.Pow.{serialize_transaction, serialize_transactions}
use projeto_so.Pow.Hash.{length-serialize_transaction, length-serialize_transactions}
use projeto_so.Pipe.{
  header_bytes, payload_size, encode_block, max_block_size, parse_transaction, parse_transactions,
  parse_payload,
}

-- Behind `n` bytes and then a part of `k` bytes.
drop-part : (n k : ℕ) (a b : List ℕ) → length a ≡ n → drop (n + k) (a ++ b) ≡ drop k b
drop-part n k [] b h = let e : n + k ≡ k = omega arith in ap (λ m. drop m b) e
drop-part zero k (x ∷ a) b h = absurd (omega arith)
drop-part (suc n) k (x ∷ a) b h =
    let e : suc n + k ≡ suc (n + k) = omega arith in
    ap (λ m. drop m (x ∷ (a ++ b))) e ∙ drop-part n k a b (omega arith)

-- The field of `k` bytes at the front.
front : (k : ℕ) (a b : List ℕ) → length a ≡ k → take k (a ++ b) ≡ a
front = take-append_length

parse_transaction-fields :
    (i r v t : List ℕ)
    → length i ≡ 64
    → length r ≡ 4
    → length v ≡ 4
    → length t ≡ 8
    → (rest : List ℕ)
    → parse_transaction (i ++ (r ++ (v ++ (t ++ rest)))) ≡ record {
      tx_id = i;
      reward = of_le_bytes r;
      value = of_le_bytes v;
      timestamp = of_le_bytes t;
    }
unfolding parse_transaction
parse_transaction-fields i r v t hi hr hv ht rest =
    let at_r : take 4 (drop 64 (i ++ (r ++ (v ++ (t ++ rest))))) ≡ r =
      ap (take 4) (drop-append_length 64 i _ hi) ∙ front 4 r _ hr in
    let at_v : take 4 (drop 68 (i ++ (r ++ (v ++ (t ++ rest))))) ≡ v =
      ap (take 4) (drop-part 64 4 i _ hi ∙ drop-append_length 4 r _ hr) ∙ front 4 v _ hv in
    let at_t : take 8 (drop 72 (i ++ (r ++ (v ++ (t ++ rest))))) ≡ t =
      ap (take 8) (drop-part 64 8 i _ hi ∙ drop-part 4 4 r _ hr ∙ drop-append_length 4 v _ hv)
      ∙ front 8 t _ ht in
    λ j. record {
      tx_id = front 64 i (r ++ (v ++ (t ++ rest))) hi j;
      reward = of_le_bytes (at_r j);
      value = of_le_bytes (at_v j);
      timestamp = of_le_bytes (at_t j);
    }

regroup :
    (t : Transaction) (rest : List ℕ)
    → serialize_transaction t ++ rest
      ≡ t.tx_id ++ (le_bytes 4 t.reward ++ (le_bytes 4 t.value ++ (le_bytes 8 t.timestamp ++ rest)))
unfolding serialize_transaction
regroup t rest = simp append_assoc

parse_transaction-serialize :
    (t : Transaction) (rest : List ℕ)
    → IsTransaction t
    → parse_transaction (serialize_transaction t ++ rest) ≡ t
parse_transaction-serialize t rest v =
    ap parse_transaction (regroup t rest)
    ∙ parse_transaction-fields t.tx_id (le_bytes 4 t.reward) (le_bytes 4 t.value)
        (le_bytes 8 t.timestamp) v.tx_id (length-le_bytes 4 t.reward) (length-le_bytes 4 t.value)
        (length-le_bytes 8 t.timestamp) rest
    ∙ (λ j. record {
      tx_id = t.tx_id;
      reward = of_le_bytes-le_bytes 4 t.reward v.reward j;
      value = of_le_bytes-le_bytes 4 t.value v.value j;
      timestamp = of_le_bytes-le_bytes 8 t.timestamp v.timestamp j;
    })

parse_transactions-serialize :
    (n : ℕ) (ts : List Transaction)
    → length ts ≡ n
    → AllTransactions ts
    → parse_transactions n (serialize_transactions ts) ≡ ts
unfolding parse_transactions serialize_transactions
parse_transactions-serialize zero [] h v = refl
parse_transactions-serialize zero (t ∷ ts) h v = absurd (omega arith)
parse_transactions-serialize (suc n) [] h v = absurd (omega arith)
parse_transactions-serialize (suc n) (t ∷ ts) h v =
    ap₂ ◌∷◌ (parse_transaction-serialize t (serialize_transactions ts) v.0) (
      ap (parse_transactions n)
        (drop-append_length 80 (serialize_transaction t) _ (length-serialize_transaction t v.0))
      ∙ parse_transactions-serialize n ts (omega arith) v.1)

abbrev pub payload : ℕ → TransactionBlock → List ℕ
payload n b = header_bytes b ++ serialize_transactions (take n b.transactions)

parse_payload-fields :
    (n : ℕ) (i p t m txs : List ℕ)
    → length i ≡ 64
    → length p ≡ 65
    → length t ≡ 8
    → length m ≡ 4
    → parse_payload n ((i ++ (p ++ (t ++ m))) ++ txs) ≡ record {
      txb_id = i;
      previous_block_hash = p;
      timestamp = of_le_bytes t;
      nonce = of_le_bytes m;
      transactions = parse_transactions n txs;
    }
unfolding parse_payload
parse_payload-fields n i p t m txs hi hp ht hm = ap (parse_payload n) flat ∙ fields
  where
    flat : (i ++ (p ++ (t ++ m))) ++ txs ≡ i ++ (p ++ (t ++ (m ++ txs)))
    flat = simp append_assoc

    at_p : take 65 (drop 64 (i ++ (p ++ (t ++ (m ++ txs))))) ≡ p
    at_p = ap (take 65) (drop-append_length 64 i _ hi) ∙ front 65 p _ hp

    at_t : take 8 (drop 129 (i ++ (p ++ (t ++ (m ++ txs))))) ≡ t
    at_t = ap (take 8) (drop-part 64 65 i _ hi ∙ drop-append_length 65 p _ hp) ∙ front 8 t _ ht

    at_m : take 4 (drop 137 (i ++ (p ++ (t ++ (m ++ txs))))) ≡ m
    at_m =
        ap (take 4) (drop-part 64 73 i _ hi ∙ drop-part 65 8 p _ hp ∙ drop-append_length 8 t _ ht)
        ∙ front 4 m _ hm

    at_txs : drop 141 (i ++ (p ++ (t ++ (m ++ txs)))) ≡ txs
    at_txs =
        drop-part 64 77 i _ hi
        ∙ drop-part 65 12 p _ hp
        ∙ drop-part 8 4 t _ ht
        ∙ drop-append_length 4 m _ hm

    fields : parse_payload n (i ++ (p ++ (t ++ (m ++ txs)))) ≡ record {
      txb_id = i;
      previous_block_hash = p;
      timestamp = of_le_bytes t;
      nonce = of_le_bytes m;
      transactions = parse_transactions n txs;
    }
    fields j = record {
      txb_id = front 64 i (p ++ (t ++ (m ++ txs))) hi j;
      previous_block_hash = at_p j;
      timestamp = of_le_bytes (at_t j);
      nonce = of_le_bytes (at_m j);
      transactions = parse_transactions n (at_txs j);
    }

pub parse_payload-encode :
    (n : ℕ) (b : TransactionBlock) → IsBlock n b → parse_payload n (payload n b) ≡ b
unfolding header_bytes
parse_payload-encode n b v =
    parse_payload-fields n b.txb_id b.previous_block_hash (le_bytes 8 b.timestamp)
      (le_bytes 4 b.nonce) _ v.txb_id v.previous_block_hash (length-le_bytes 8 b.timestamp)
      (length-le_bytes 4 b.nonce)
    ∙ (λ j. record {
      txb_id = b.txb_id;
      previous_block_hash = b.previous_block_hash;
      timestamp = of_le_bytes-le_bytes 8 b.timestamp v.timestamp j;
      nonce = of_le_bytes-le_bytes 4 b.nonce v.nonce j;
      transactions = txs j;
    })
  where
    txs : parse_transactions n (serialize_transactions (take n b.transactions)) ≡ b.transactions
    txs =
        ap (λ ts. parse_transactions n (serialize_transactions ts))
          (take-length n b.transactions v.how_many)
        ∙ parse_transactions-serialize n b.transactions v.how_many v.all

length-header_bytes : (n : ℕ) (b : TransactionBlock) → IsBlock n b → length (header_bytes b) ≡ 141
unfolding header_bytes
length-header_bytes n b v = omega (
  arith,
  v.txb_id,
  v.previous_block_hash,
  length-append b.txb_id (b.previous_block_hash ++ (le_bytes 8 b.timestamp ++ le_bytes 4 b.nonce)),
  length-append b.previous_block_hash (le_bytes 8 b.timestamp ++ le_bytes 4 b.nonce),
  length-append (le_bytes 8 b.timestamp) (le_bytes 4 b.nonce),
  length-le_bytes 8 b.timestamp,
  length-le_bytes 4 b.nonce,
)

pub length-payload :
    (n : ℕ) (b : TransactionBlock) → IsBlock n b → length (payload n b) ≡ payload_size n
unfolding payload_size
length-payload n b v = rw (take-length n b.transactions v.how_many) (
    omega (
      arith,
      length-append (header_bytes b) (serialize_transactions b.transactions),
      length-header_bytes n b v,
      length-serialize_transactions b.transactions v.all,
      v.how_many,
    ))

-- A miner's message fills the validator's buffer exactly.
pub length-encode_block :
    (n : ℕ) (b : TransactionBlock) → IsBlock n b → length (encode_block n b) ≡ max_block_size n
unfolding encode_block max_block_size payload_size
length-encode_block n b v = omega (
  arith,
  length-append (le_bytes 8 (payload_size n)) (payload n b),
  length-payload n b v,
  length-le_bytes 8 (payload_size n),
)
