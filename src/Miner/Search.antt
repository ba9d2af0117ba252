-- ===== src/Miner/Search.antt =====
-- The search of a miner thread for the nonce of its block.
use projeto_so.Base.{
  ℕ, ◌+◌, ◌≤◌, ◌≡◌, refl, sym, ap, subst, ◌∙◌, ◌⊎◌, inl, inr, Bool, true, false, ◌&&◌, not, List,
  [], ◌∷◌, none, some, some_inj, arith, Bool-cases, ◌==◌,
}
use projeto_so.Chain.{TransactionBlock}
use projeto_so.Pow.{PowResult, pow_max_ops, get_max_transaction_reward, proof_of_work, verify_nonce}
use projeto_so.Pow.Search.{with_nonce, good_nonce, proof_of_work_lem, verify_nonce-proof_of_work}
use projeto_so.Miner.{mine_block}

module _ (sha : List ℕ → List ℕ) (n : ℕ) where
  -- The block is the one that was to be mined, but for its time and its nonce.
  pub record SameContent (b b' : TransactionBlock) : Type 0 where
    pub txb_id : b'.txb_id ≡ b.txb_id
    pub previous_block_hash : b'.previous_block_hash ≡ b.previous_block_hash
    pub transactions : b'.transactions ≡ b.transactions

  -- An attempt at the time `now` finds a nonce.
  abbrev pub Succeeds : TransactionBlock → ℕ → Type 0
  Succeeds b now =
      (k : ℕ) × (k ≤ pow_max_ops)
      × (good_nonce sha n (get_max_transaction_reward (some (record b { timestamp = now })) n)
            (record b { timestamp = now }) k
          ≡ true)

  abbrev pub SomeSucceeds : TransactionBlock → List (ℕ × Bool) → Type 0
  SomeSucceeds b [] = ⊥
  SomeSucceeds b ((now, stop) ∷ attempts) = Succeeds b now ⊎ SomeSucceeds b attempts

  abbrev pub NoneStopped : List (ℕ × Bool) → Type 0
  NoneStopped [] = Unit {0}
  NoneStopped ((now, stop) ∷ attempts) = (stop ≡ false) × NoneStopped attempts

  module _ (b : TransactionBlock) (now : ℕ) (stop : Bool) (attempts : List (ℕ × Bool))
      (r : PowResult) (b' : TransactionBlock)
      (e : proof_of_work sha n (record b { timestamp = now }) ≡ some (r, b')) where
    mine_block-stops :
        (r.error == 1 && not stop) ≡ false → mine_block sha n ((now, stop) ∷ attempts) b ≡ some b'
    unfolding mine_block
    mine_block-stops h = rw (e, h, mine_block)

    mine_block-again :
        (r.error == 1 && not stop) ≡ true
        → mine_block sha n ((now, stop) ∷ attempts) b ≡ mine_block sha n attempts b'
    unfolding mine_block
    mine_block-again h = rw (e, h, mine_block)

    -- What an attempt leaves: a good nonce, or a nonce beyond the bound and none that is good.
    attempt-cases :
        (k : ℕ) × (b' ≡ with_nonce (record b { timestamp = now }) k)
        × ((r.error ≡ 0) ⊎ ((r.error ≡ 1) × (¬ Succeeds b now)))
    attempt-cases =
        let (q, found, result) = proof_of_work_lem sha n (record b { timestamp = now }) in
        let same : q ≡ (r, b') = some_inj (sym found ∙ e) in
        elim result [
          | inl f ↦ (
            f.nonce,
            ap (λ x. x.1) (sym same) ∙ f.block,
            inl (ap (λ x. (x.0).error) (sym same) ∙ f.no_error),
          )
          | inr g ↦ (
            pow_max_ops + 1,
            ap (λ x. x.1) (sym same) ∙ g.block,
            inr (
              ap (λ x. (x.0).error) (sym same) ∙ g.error,
              λ good.
                  let reward = get_max_transaction_reward (some (record b { timestamp = now })) n in
                  let bad : good_nonce sha n reward (record b { timestamp = now }) good.0 ≡ false =
                    g.none_good good.0 (omega arith) (omega (arith, good.1)) in
                  cc (good.2, bad),
            ),
          )
        ]

  kept :
      (b : TransactionBlock) (now k : ℕ) (b' : TransactionBlock)
      → b' ≡ with_nonce (record b { timestamp = now }) k
      → SameContent b b'
  kept b now k b' e = record {
    txb_id = ap (λ (x : TransactionBlock). x.txb_id) e;
    previous_block_hash = ap (λ (x : TransactionBlock). x.previous_block_hash) e;
    transactions = ap (λ (x : TransactionBlock). x.transactions) e;
  }

  attempt :
      (b : TransactionBlock) (now : ℕ)
      → (r : PowResult) × (b' : TransactionBlock) × (proof_of_work sha n
            (record b { timestamp = now })
          ≡ some (r, b'))
  attempt b now =
      let ((r, b'), found, result) = proof_of_work_lem sha n (record b { timestamp = now }) in
      (r, b', found)

  mine_block-nil : (b : TransactionBlock) → mine_block sha n [] b ≡ none
  unfolding mine_block
  mine_block-nil b = refl

  SomeSucceeds-kept :
      (b : TransactionBlock) (now k : ℕ) (attempts : List (ℕ × Bool))
      → SomeSucceeds b attempts
      → SomeSucceeds (with_nonce (record b { timestamp = now }) k) attempts
  unfolding get_max_transaction_reward
  SomeSucceeds-kept b now k [] s = elim s [ ]
  SomeSucceeds-kept b now k ((later, stop) ∷ attempts) (inl s) = inl s
  SomeSucceeds-kept b now k ((later, stop) ∷ attempts) (inr s) =
      inr (SomeSucceeds-kept b now k attempts s)

  -- If one of the attempts at the block finds a nonce then the thread gets a block out of its loop.
  pub mine_block-some :
      (attempts : List (ℕ × Bool)) (b : TransactionBlock)
      → SomeSucceeds b attempts
      → (b' : TransactionBlock) × (mine_block sha n attempts b ≡ some b')
  mine_block-some [] b good = elim good [ ]
  mine_block-some ((now, stop) ∷ attempts) b good =
      let (r, b', e) = attempt b now in
      elim (Bool-cases (r.error == 1 && not stop)) [
        | inr done ↦ (b', mine_block-stops b now stop attempts r b' e done)
        | inl again ↦
            let (k, left, result) = attempt-cases b now stop attempts r b' e in
            let later : SomeSucceeds b attempts = elim good [
              | inl now' ↦ elim result [
                | inl zero_error ↦ absurd (ground (arith, again, zero_error))
                | inr (one, never) ↦ absurd (never now')
              ]
              | inr others ↦ others
            ] in
            let (c, found) = mine_block-some attempts b' (
              subst (λ x. SomeSucceeds x attempts) (sym left)
                (SomeSucceeds-kept b now k attempts later)) in
            (c, mine_block-again b now stop attempts r b' e again ∙ found)
      ]

  -- Unless the threads are stopped, the block that comes out of the loop passes the validator's
  -- test and differs from the one that went in only in its time and its nonce.
  pub mine_block-mined :
      (attempts : List (ℕ × Bool)) (b b' : TransactionBlock)
      → NoneStopped attempts
      → mine_block sha n attempts b ≡ some b'
      → (verify_nonce sha n b' ≡ true) × SameContent b b'
  mine_block-mined [] b b' free h = absurd (cc (h, mine_block-nil b))
  mine_block-mined ((now, stop) ∷ attempts) b b' free h =
      let (r, c, e) = attempt b now in
      let (k, left, result) = attempt-cases b now stop attempts r c e in
      elim (Bool-cases (r.error == 1 && not stop)) [
        | inr done ↦
            let same : c ≡ b' =
              some_inj (sym (mine_block-stops b now stop attempts r c e done) ∙ h) in
            let no_error : r.error ≡ 0 = elim result [
              | inl zero_error ↦ zero_error
              | inr (one, never) ↦ absurd (ground (arith, done, one, free.0))
            ] in
            subst (λ x. (verify_nonce sha n x ≡ true) × SameContent b x) same
              (
                verify_nonce-proof_of_work sha n (record b { timestamp = now }) e no_error,
                kept b now k c left,
              )
        | inl again ↦
            let (good, same) =
              mine_block-mined attempts c b' free.1
                (sym (mine_block-again b now stop attempts r c e again) ∙ h) in
            let before = kept b now k c left in
            (
              good,
              record {
                txb_id = same.txb_id ∙ before.txb_id;
                previous_block_hash = same.previous_block_hash ∙ before.previous_block_hash;
                transactions = same.transactions ∙ before.transactions;
              },
            )
      ]
