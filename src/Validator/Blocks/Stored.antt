-- ===== src/Validator/Blocks/Stored.antt =====
-- The copy of a block into the ledger by src/Validator.c.
use projeto_so.Base.{
  ℕ, zero, suc, ◌≡◌, refl, ap, ap₂, ◌∙◌, List, [], ◌∷◌, arith, length, take, take-length, replicate,
}
use projeto_so.Libc.Copy.{IsPadded, strcpy-zeros}
use projeto_so.Chain.{Transaction, TransactionBlock, tx_id_len, txb_id_len, hash_size}
use projeto_so.Validator.Blocks.{
  zero_transaction, zero_block, store_transaction, store_transactions, store_block,
}

abbrev pub AllPadded : List Transaction → Type 0
AllPadded [] = Unit {0}
AllPadded (t ∷ ts) = IsPadded tx_id_len t.tx_id × AllPadded ts

-- A block of `n` transactions whose strings are followed by NULs alone, as the miners build it.
pub record IsPaddedBlock (n : ℕ) (b : TransactionBlock) : Type 0 where
  pub txb_id : IsPadded txb_id_len b.txb_id
  pub previous_block_hash : IsPadded hash_size b.previous_block_hash
  pub how_many : length b.transactions ≡ n
  pub all : AllPadded b.transactions

store_transactions-zero :
    (n : ℕ) (ts : List Transaction)
    → length ts ≡ n
    → AllPadded ts
    → store_transactions (replicate n zero_transaction) ts ≡ ts
unfolding store_transactions store_transaction
store_transactions-zero zero [] h p = refl
store_transactions-zero zero (t ∷ ts) h p = absurd (omega arith)
store_transactions-zero (suc n) [] h p = absurd (omega arith)
store_transactions-zero (suc n) (t ∷ ts) h p =
    ap₂ ◌∷◌ (ap (λ i. record t { tx_id = i }) (strcpy-zeros tx_id_len t.tx_id p.0))
      (store_transactions-zero n ts (omega arith) p.1)

-- The ledger's copy, field by field with strcpy, of a padded block of n transactions into a block
-- of NULs is the block itself.
pub store_block-zero :
    (n : ℕ) (b : TransactionBlock) → IsPaddedBlock n b → store_block n (zero_block n) b ≡ b
unfolding store_block
store_block-zero n b p = λ i. record {
  txb_id = strcpy-zeros txb_id_len b.txb_id p.txb_id i;
  previous_block_hash = strcpy-zeros hash_size b.previous_block_hash p.previous_block_hash i;
  timestamp = b.timestamp;
  nonce = b.nonce;
  transactions = txs i;
}
  where
    txs : store_transactions (replicate n zero_transaction) (take n b.transactions) ≡ b.transactions
    txs =
        ap (store_transactions (replicate n zero_transaction))
          (take-length n b.transactions p.how_many)
        ∙ store_transactions-zero n b.transactions p.how_many p.all
