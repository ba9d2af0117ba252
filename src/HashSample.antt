-- ===== src/HashSample.antt =====
-- src/PoW/hash_block_sample.c: the program that builds a chain of blocks with the functions of pow.c. The
-- random numbers, the clock, the bytes on the stack and the value that its float expression gives are
-- arguments; what it prints is left out.
pub mod Chained
pub mod Tests
use projeto_so.Base.{
  ℕ, zero, suc, ◌+◌, ◌%◌, List, [], ◌∷◌, ◌++◌, Option, none, some, leb, ◌==◌, if◌then◌else◌, codes,
  get_elem?, set, replicate, take, c_str,
}
use projeto_so.Libc.{snprintf, strncpy, strcpy, format_int, digits}
use projeto_so.Chain.{Transaction, TransactionBlock, tx_id_len, txb_id_len, hash_size}
use projeto_so.Pow.{PowResult, proof_of_work, verify_nonce, compute_sha256}
use projeto_so.TxGen.{tx_name}
use projeto_so.Validator.Blocks.{zero_block}

abbrev pub ledger_size : ℕ
ledger_size = 4

-- The three numbers of rand, the time, and the bytes that tx_id has before.
pub record Draw : Type 0 where
  pub reward : ℕ
  pub age : ℕ
  pub value : ℕ
  pub now : ℕ
  pub stack : List ℕ

-- What a block takes from its surroundings: its transactions' draws, the times at which its nonce is
-- searched, and the bytes that txb_id and the nonce have before.
pub record BlockDraws : Type 0 where
  pub draws : ℕ → Draw
  pub times : List ℕ
  pub stack : List ℕ
  pub nonce : ℕ

unfoldable pub random_reward : Draw → ℕ
random_reward d =
    let reward = d.reward % 3 + 1 in
    let chance = d.age % 101 in
    let older = if leb chance 3 then reward + 1 else reward in
    if leb chance 1 then older + 1 else older

-- `value_of k` is ((float)k) / 100.0f + 0.01f.
module _ (value_of : ℕ → ℕ) (pid : ℕ) where
  unfoldable pub generate_random_transaction : Draw → ℕ → Transaction
  generate_random_transaction d tx_number = record {
    tx_id = snprintf d.stack tx_id_len (tx_name pid tx_number);
    reward = random_reward d;
    value = value_of (d.value % 10000);
    timestamp = d.now;
  }

  -- The loop over the transactions from the index `i` on.
  unfoldable pub random_transactions : (ℕ → Draw) → ℕ → ℕ → List Transaction
  random_transactions draws i zero = []
  random_transactions draws i (suc left) =
      generate_random_transaction (draws i) i ∷ random_transactions draws (suc i) left

  -- `tid` is the value of pthread_self.
  unfoldable pub unmined_block : ℕ → ℕ → List ℕ → ℕ → BlockDraws → TransactionBlock
  unmined_block n tid prev_hash block_number e = record {
    txb_id =
        snprintf e.stack txb_id_len
          (codes "BLOCK-" ++ digits 20 tid ++ codes "-" ++ format_int block_number);
    previous_block_hash = strncpy hash_size prev_hash;
    timestamp = 0;
    nonce = e.nonce;
    transactions = random_transactions e.draws 0 n;
  }

-- The loop over the times. `none`: they are used up.
unfoldable pub search_nonce :
    (List ℕ → List ℕ) → ℕ → List ℕ → TransactionBlock → Option TransactionBlock
search_nonce sha n [] block = none
search_nonce sha n (now ∷ times) block =
    elim (proof_of_work sha n (record block { timestamp = now })) [
      | none ↦ none
      | some (r, block2) ↦ if r.error == 1 then search_nonce sha n times block2 else some block2
    ]

-- The copy of a block on the ledger.
unfoldable pub blkcpy : TransactionBlock → TransactionBlock → TransactionBlock
blkcpy dest src = record {
  txb_id = strcpy dest.txb_id src.txb_id;
  previous_block_hash = strcpy dest.previous_block_hash src.previous_block_hash;
  timestamp = src.timestamp;
  nonce = src.nonce;
  transactions = src.transactions;
}

-- The program ends without a hash of the zeroed block, or at a block whose nonce is not good, or with
-- the blocks that it has built and its ledger.
pub data SampleEnd : Type 0 where
  no_hash : SampleEnd
  bad_nonce : SampleEnd
  finished : List TransactionBlock → List TransactionBlock → SampleEnd

unfoldable pub put : List TransactionBlock → ℕ → TransactionBlock → List TransactionBlock
put ledger i b = elim (get_elem? ledger i) [
  | none ↦ ledger
  | some old ↦ set ledger i (blkcpy old b)
]

unfoldable pub with_block : TransactionBlock → Option SampleEnd → Option SampleEnd
with_block b (some (finished bs ledger)) = some (finished (b ∷ bs) ledger)
with_block b end = end

module _ (sha : List ℕ → List ℕ) (n : ℕ) (value_of : ℕ → ℕ) (pid tid : ℕ)
    (surroundings : ℕ → BlockDraws) where
  unfoldable pub generate_random_block : List ℕ → ℕ → Option TransactionBlock
  generate_random_block prev_hash block_number =
      let e = surroundings block_number in
      search_nonce sha n e.times (unmined_block value_of pid n tid prev_hash block_number e)

  -- The loop of main from the index `i` on.
  unfoldable pub build_chain : List ℕ → List TransactionBlock → ℕ → ℕ → Option SampleEnd
  build_chain hash_buffer ledger i zero = some (finished [] ledger)
  build_chain hash_buffer ledger i (suc left) = elim (generate_random_block hash_buffer i) [
    | none ↦ none
    | some b ↦
        let rest = build_chain (compute_sha256 sha n b) (put ledger i b) (suc i) left in
        if verify_nonce sha n b then with_block b rest else some bad_nonce
  ]

  unfoldable pub after_hash : List ℕ → Option (List ℕ) → Option SampleEnd
  after_hash stack none = some no_hash
  after_hash stack (some hash) =
      build_chain (strcpy stack hash) (replicate ledger_size (zero_block 0)) 0 ledger_size

  -- `stack` is what hash_buffer holds before.
  unfoldable pub sample_main : List ℕ → Option SampleEnd
  sample_main stack = elim (proof_of_work sha n (zero_block n)) [
    | none ↦ none
    | some (r, block) ↦ if r.error == 0 then after_hash stack r.hash else some no_hash
  ]
