-- ===== src/Pow/Search.antt =====
-- The loop of proof_of_work of src/PoW/pow.c.
use projeto_so.Base.{
  ℕ, zero, suc, ◌+◌, ◌≤◌, ◌<◌, ◌^◌, ◌≡◌, refl, ap, subst, ◌∙◌, ◌⊎◌, inl, inr, Bool, true, false,
  List, Option, some, arith, Bool-cases, ℕ_discrete, dec_lt, ltb, lt→ltb, u32,
}
use mathlib.Core.Option.{some-injective}
use projeto_so.Chain.{TransactionBlock}
use projeto_so.Pow.{
  PowResult, pow_max_ops, pow_loop, proof_of_work, compute_sha256, check_difficulty, verify_nonce,
  get_max_transaction_reward,
}

abbrev pub with_nonce : TransactionBlock → ℕ → TransactionBlock
with_nonce b k = record b { nonce = k }

module _ (sha : List ℕ → List ℕ) (n : ℕ) where
  -- The block's hash under nonce `k` meets the difficulty of its largest reward.
  abbrev pub good_nonce : ℕ → TransactionBlock → ℕ → Bool
  good_nonce reward b k = check_difficulty (compute_sha256 sha n (with_nonce b k)) reward

  -- The search from the block's own nonce stopped at the first nonce that is good.
  pub record Found (max_ops reward ops : ℕ) (b : TransactionBlock)
      (r : PowResult × TransactionBlock) : Type 0 where
    pub nonce : ℕ
    pub from : b.nonce ≤ nonce
    pub within : nonce ≤ max_ops
    pub good : good_nonce reward b nonce ≡ true
    pub first : (m : ℕ) → b.nonce ≤ m → m < nonce → good_nonce reward b m ≡ false
    pub block : r.1 ≡ with_nonce b nonce
    pub hash : (r.0).hash ≡ some (compute_sha256 sha n (with_nonce b nonce))
    pub operations : (r.0).operations + b.nonce ≡ ops + nonce
    pub no_error : (r.0).error ≡ 0

  -- No nonce up to the bound is good.
  pub record GaveUp (max_ops reward : ℕ) (b : TransactionBlock) (r : PowResult × TransactionBlock)
      : Type 0 where
    pub none_good : (m : ℕ) → b.nonce ≤ m → m ≤ max_ops → good_nonce reward b m ≡ false
    pub block : r.1 ≡ with_nonce b (max_ops + 1)
    pub error : (r.0).error ≡ 1

  abbrev pub Searched :
      ℕ → ℕ → ℕ → TransactionBlock → Option (PowResult × TransactionBlock) → Type 0
  Searched max_ops reward ops b result =
      (r : PowResult × TransactionBlock) × (result ≡ some r)
      × (Found max_ops reward ops b r ⊎ GaveUp max_ops reward b r)

  -- One more nonce is bad in front of a search that goes on behind it.
  Found-back :
      {max_ops reward ops : ℕ} {r : PowResult × TransactionBlock} (b : TransactionBlock)
      → good_nonce reward b b.nonce ≡ false
      → Found max_ops reward (ops + 1) (with_nonce b (b.nonce + 1)) r
      → Found max_ops reward ops b r
  Found-back b bad f = record {
    nonce = f.nonce;
    from = omega (arith, f.from);
    within = f.within;
    good = f.good;
    first = λ m lo hi. elim (ℕ_discrete b.nonce m) [
      | yes e ↦ rw (← e) bad
      | no ne ↦ f.first m (omega arith) hi
    ];
    block = f.block;
    hash = f.hash;
    operations = omega (arith, f.operations);
    no_error = f.no_error;
  }

  GaveUp-back :
      {max_ops reward : ℕ} {r : PowResult × TransactionBlock} (b : TransactionBlock)
      → good_nonce reward b b.nonce ≡ false
      → GaveUp max_ops reward (with_nonce b (b.nonce + 1)) r
      → GaveUp max_ops reward b r
  GaveUp-back b bad g = record {
    none_good = λ m lo hi. elim (ℕ_discrete b.nonce m) [
      | yes e ↦ rw (← e) bad
      | no ne ↦ g.none_good m (omega arith) hi
    ];
    block = g.block;
    error = g.error;
  }

  pow_loop-Searched :
      (fuel max_ops reward ops : ℕ) (b : TransactionBlock)
      → max_ops + 1 < 2 ^ 32
      → b.nonce ≤ max_ops
      → max_ops < b.nonce + fuel
      → Searched max_ops reward ops b (pow_loop sha n fuel max_ops reward ops b)
  unfolding pow_loop
  pow_loop-Searched zero max_ops reward ops b small le enough = absurd (omega arith)
  pow_loop-Searched (suc fuel) max_ops reward ops b small le enough =
      let wrap : u32 (b.nonce + 1) ≡ b.nonce + 1 = omega arith in
      rw wrap (elim (Bool-cases (good_nonce reward b b.nonce)) [
        | inl good ↦ rw good (
          _,
          refl,
          inl (record {
            nonce = b.nonce;
            from = omega arith;
            within = le;
            good = good;
            first = λ m lo hi. absurd (omega arith);
            block = refl;
            hash = refl;
            operations = refl;
            no_error = refl;
          }),
        )
        | inr bad ↦ rw bad (elim (dec_lt max_ops (b.nonce + 1)) [
          | yes last ↦
              let e : b.nonce ≡ max_ops = omega arith in
              rw (lt→ltb max_ops (b.nonce + 1) last) (
                _,
                refl,
                inr (record {
                  none_good = λ m lo hi. let same : m ≡ b.nonce = omega arith in rw same bad;
                  block = rw e;
                  error = refl;
                }),
              )
          | no more ↦
              let below : ltb max_ops (b.nonce + 1) ≡ false = ground arith in
              rw below (
                back bad (
                  pow_loop-Searched fuel max_ops reward (ops + 1) (with_nonce b (b.nonce + 1)) small
                    (omega arith) (omega arith)))
        ])
      ])
    where
      back :
          good_nonce reward b b.nonce ≡ false
          → {result : Option (PowResult × TransactionBlock)}
          → Searched max_ops reward (ops + 1) (with_nonce b (b.nonce + 1)) result
          → Searched max_ops reward ops b result
      back bad (r, e, inl f) = (r, e, inl (Found-back b bad f))
      back bad (r, e, inr g) = (r, e, inr (GaveUp-back b bad g))

  -- The search ends within its bound: with the first nonce that is good, the hash under it, the
  -- number of operations and no error, or with error 1 and no good nonce up to the bound.
  pub proof_of_work_lem :
      (b : TransactionBlock)
      → Searched pow_max_ops
          (get_max_transaction_reward (some b) n)
          0
          (with_nonce b 0)
          (proof_of_work sha n b)
  unfolding proof_of_work
  proof_of_work_lem b =
      pow_loop-Searched (suc pow_max_ops) pow_max_ops (get_max_transaction_reward (some b) n) 0
        (with_nonce b 0) (omega arith) (omega arith) (omega arith)

  reward-with_nonce :
      (b : TransactionBlock) (k : ℕ)
      → get_max_transaction_reward (some (with_nonce b k)) n ≡ get_max_transaction_reward (some b) n
  unfolding get_max_transaction_reward
  reward-with_nonce b k = refl

  verify_nonce-Searched :
      (b : TransactionBlock) {r : PowResult} {b' : TransactionBlock}
      → Searched pow_max_ops
          (get_max_transaction_reward (some b) n)
          0
          (with_nonce b 0)
          (some (r, b'))
      → r.error ≡ 0
      → verify_nonce sha n b' ≡ true
  unfolding verify_nonce
  verify_nonce-Searched b {r} {b'} (q, e, inl f) h =
      let same : b' ≡ with_nonce b f.nonce = ap (λ x. x.1) (some-injective (r, b') q e) ∙ f.block in
      rw (same, reward-with_nonce b f.nonce) f.good
  verify_nonce-Searched b {r} {b'} (q, e, inr g) h =
      let er : r.error ≡ 1 =
        ap (λ (x : PowResult × TransactionBlock). (x.0).error) (some-injective (r, b') q e)
        ∙ g.error in
      absurd (omega arith)

  -- A block that the miner's search returns without an error passes the validator's test of its
  -- nonce.
  pub verify_nonce-proof_of_work :
      (b : TransactionBlock) {r : PowResult} {b' : TransactionBlock}
      → proof_of_work sha n b ≡ some (r, b')
      → r.error ≡ 0
      → verify_nonce sha n b' ≡ true
  verify_nonce-proof_of_work b e = verify_nonce-Searched b (
      subst (Searched pow_max_ops (get_max_transaction_reward (some b) n) 0 (with_nonce b 0)) e
        (proof_of_work_lem b))
