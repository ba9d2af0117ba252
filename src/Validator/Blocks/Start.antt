-- ===== src/Validator/Blocks/Start.antt =====
-- The ledger that the first validator of src/Validator.c starts.
use projeto_so.Base.{
  ℕ, zero, suc, ◌≤◌, ◌<◌, ◌^◌, ◌≡◌, refl, ap, subst, ◌∙◌, ◌⊎◌, inl, inr, true, List, ◌∷◌, some,
  arith, length-replicate, replicate, get_elem?, get_elem?-replicate, some_inj, c_str,
}
use projeto_so.Libc.{strcpy}
use projeto_so.Chain.{TransactionBlock, Ledger, hash_size}
use projeto_so.Pow.{
  PowResult, proof_of_work, compute_sha256, verify_nonce, get_max_transaction_reward, pow_max_ops,
}
use projeto_so.Pow.Hash.{IsDigest}
use projeto_so.Pow.Search.{with_nonce, Searched, proof_of_work_lem, verify_nonce-proof_of_work}
use projeto_so.Validator.Blocks.{
  zero_block, Started, started, no_hash, store_first, started_from, start_ledger, new_ledger,
}
use projeto_so.Validator.Blocks.Hashes.{strcpy-compute_sha256}
use projeto_so.Validator.Blocks.Linked.{IsLinked}

module _ (sha : List ℕ → List ℕ) (n : ℕ) where
  -- A ledger of `suc k` blocks that holds the first block alone.
  abbrev pub first_ledger : ℕ → TransactionBlock → Ledger
  first_ledger k b = record {
    last_block_index = 0;
    last_block_hash = compute_sha256 sha n b;
    num_blocks = suc k;
    count = 1;
    blocks = b ∷ replicate k (zero_block n);
  }

  first_ledger-links :
      (k : ℕ) (b : TransactionBlock)
      → (i : ℕ) (x y : TransactionBlock) → i < 0
      → get_elem? (first_ledger k b).blocks i ≡ some x
      → get_elem? (first_ledger k b).blocks (suc i) ≡ some y
      → y.previous_block_hash ≡ compute_sha256 sha n x
  first_ledger-links k b i x y lt hx hy = elim lt [ ]

  first_ledger-mined :
      (k : ℕ) (b : TransactionBlock)
      → verify_nonce sha n b ≡ true
      → (i : ℕ) (x : TransactionBlock) → i ≤ 0
      → get_elem? (first_ledger k b).blocks i ≡ some x
      → verify_nonce sha n x ≡ true
  first_ledger-mined k b good zero x le h =
      subst (λ z. verify_nonce sha n z ≡ true) (some_inj h) good
  first_ledger-mined k b good (suc i) x le h = elim le [ ]

  first_ledger-unused :
      (k : ℕ) (b : TransactionBlock) (i : ℕ) (x : TransactionBlock)
      → 0 < i
      → get_elem? (first_ledger k b).blocks i ≡ some x
      → x ≡ zero_block n
  first_ledger-unused k b zero x lt h = elim lt [ ]
  first_ledger-unused k b (suc i) x lt h = get_elem?-replicate k i (zero_block n) h

  pub first_ledger-IsLinked :
      (k : ℕ) (b : TransactionBlock)
      → suc k < 2 ^ 31
      → verify_nonce sha n b ≡ true
      → IsLinked sha n (first_ledger k b)
  first_ledger-IsLinked k b small good = record {
    counted = refl;
    sized = ap suc (length-replicate k (zero_block n));
    small = small;
    room = omega arith;
    last = λ c h. ap (compute_sha256 sha n) (some_inj h);
    links = first_ledger-links k b;
    mined = first_ledger-mined k b good;
    unused = first_ledger-unused k b;
  }

  store_first-found :
      (k : ℕ) (r : PowResult) (nonce : ℕ) (hash : List ℕ)
      → r.hash ≡ some hash
      → strcpy (replicate hash_size 0) hash ≡ hash
      → hash ≡ compute_sha256 sha n (with_nonce (zero_block n) nonce)
      → store_first r (with_nonce (zero_block n) nonce) (new_ledger n (suc k))
        ≡ started (first_ledger k (with_nonce (zero_block n) nonce))
  unfolding store_first new_ledger strcpy c_str
  store_first-found k r nonce hash e copy same =
      rw (e, store_first)
        (λ i. started (record {
          last_block_index = 0;
          last_block_hash = (copy ∙ same) i;
          num_blocks = suc k;
          count = 1;
          blocks = with_nonce (zero_block n) nonce ∷ replicate k (zero_block n);
        }))

  -- The ledger of a new simulation under the first validator: started with one mined block, or given up
  -- with the search for its nonce.
  abbrev pub Starts : ℕ → Started → Type 0
  Starts k result =
      (result ≡ no_hash)
      ⊎ ((b : TransactionBlock) × (result ≡ started (first_ledger k b))
          × IsLinked sha n (first_ledger k b))

  start_new :
      (k : ℕ)
      → start_ledger sha n (new_ledger n (suc k))
        ≡ started_from (proof_of_work sha n (zero_block n)) (new_ledger n (suc k))
  unfolding start_ledger new_ledger started_from
  start_new k = refl

  start_ledger-Searched :
      IsDigest sha
      → (k : ℕ) → suc k < 2 ^ 31
      → Searched sha n pow_max_ops
          (get_max_transaction_reward (some (zero_block n)) n)
          0
          (with_nonce (zero_block n) 0)
          (proof_of_work sha n (zero_block n))
      → Starts k (start_ledger sha n (new_ledger n (suc k)))
  unfolding started_from
  start_ledger-Searched digest k small ((r, b), e, inl f) =
      let nemesis = with_nonce (zero_block n) f.nonce in
      let copy =
        strcpy-compute_sha256 sha digest n nemesis (replicate hash_size 0)
          (length-replicate {A = ℕ} hash_size 0) in
      let good : verify_nonce sha n nemesis ≡ true =
        subst (λ x. verify_nonce sha n x ≡ true) f.block
          (verify_nonce-proof_of_work sha n (zero_block n) e f.no_error) in
      inr (
        nemesis,
        start_new k
            ∙ ap (λ o. started_from o (new_ledger n (suc k))) e
            ∙ (simp f.no_error (
                ap (λ x. store_first r x (new_ledger n (suc k))) f.block
                ∙ store_first-found k r f.nonce _ f.hash copy refl)),
        first_ledger-IsLinked k nemesis small good,
      )
  start_ledger-Searched digest k small ((r, b), e, inr g) =
      inl (start_new k ∙ ap (λ o. started_from o (new_ledger n (suc k))) e ∙ (simp g.error))

  -- A validator that starts on a new ledger of at least one and fewer than 2^31 blocks makes it
  -- linked, with one mined block in it, or finds no hash for that block and gives up; nothing else
  -- can happen. SHA256 gives 32 bytes.
  start_ledger-Starts :
      IsDigest sha → (k : ℕ) → suc k < 2 ^ 31 → Starts k (start_ledger sha n (new_ledger n (suc k)))
  start_ledger-Starts digest k small =
      start_ledger-Searched digest k small (proof_of_work_lem sha n (zero_block n))
