-- ===== src/Statistics/Totals.antt =====
-- The counts of src/Statistics.c under one message.
use projeto_so.Base.{
  Option-cases, ℕ, zero, suc, ◌+◌, ◌≤◌, ◌<◌, ◌^◌, ◌≡◌, refl, sym, ap, subst, ◌∙◌, inl, inr, true,
  false, List, [], ◌∷◌, none, some, some_inj, arith, Bool-cases, get_elem?, set, replicate, ◌==◌,
  u32, minus_one, take,
}
use projeto_so.Chain.{TransactionBlock, Ledger, StatisticsMessage}
use projeto_so.Statistics.{
  Statistics, add_at, miner_index, add_times, count_invalid, count_valid, time_block,
  handle_message,
}

abbrev pub sum : List ℕ → ℕ
sum [] = 0
sum (x ∷ xs) = x + sum xs

pub sum-replicate : (n : ℕ) → sum (replicate n 0) ≡ 0
sum-replicate zero = refl
sum-replicate (suc n) = omega (arith, sum-replicate n)

sum-set : (xs : List ℕ) (i x v : ℕ) → get_elem? xs i ≡ some x → sum (set xs i v) + x ≡ sum xs + v
sum-set [] i x v e = cc
sum-set (y ∷ xs) zero x v e = omega (arith, some_inj e)
sum-set (y ∷ xs) (suc i) x v e = omega (arith, sum-set xs i x v e)

le_sum : (xs : List ℕ) (i x : ℕ) → get_elem? xs i ≡ some x → x ≤ sum xs
le_sum [] i x e = cc
le_sum (y ∷ xs) zero x e = omega (arith, some_inj e)
le_sum (y ∷ xs) (suc i) x e = omega (arith, le_sum xs i x e)

pub add_at-at :
    (xs : List ℕ) (i a x : ℕ)
    → get_elem? xs i ≡ some x
    → add_at xs i a ≡ some (set xs i (u32 (x + a)))
unfolding add_at
add_at-at xs i a x e = rw (e, add_at)

pub add_at-out : (xs : List ℕ) (i a : ℕ) → get_elem? xs i ≡ none → add_at xs i a ≡ none
unfolding add_at
add_at-out xs i a e = rw (e, add_at)

-- A write that is in bounds.
abbrev AddedAt : List ℕ → ℕ → ℕ → List ℕ → Type 0
AddedAt xs i a ys = (x : ℕ) × (get_elem? xs i ≡ some x) × (ys ≡ set xs i (u32 (x + a)))

add_at-some : (xs : List ℕ) (i a : ℕ) {ys : List ℕ} → add_at xs i a ≡ some ys → AddedAt xs i a ys
add_at-some xs i a e = elim (Option-cases (get_elem? xs i)) [
  | inl out ↦ absurd (cc (e, add_at-out xs i a out))
  | inr (x, there) ↦ (x, there, some_inj (sym e ∙ add_at-at xs i a x there))
]

add_one-sum :
    (xs : List ℕ) (i : ℕ) {ys : List ℕ}
    → sum xs + 1 < 2 ^ 32
    → add_at xs i 1 ≡ some ys
    → sum ys ≡ sum xs + 1
add_one-sum xs i few e =
    let (x, there, new) = add_at-some xs i 1 e in
    let le = le_sum xs i x there in
    ap sum new ∙ omega (arith, le, sum-set xs i x (u32 (x + 1)) there)

module _ (Double : Type 0) (add : Double → ℕ → Double) where
  -- At most `k` messages were counted: as many processed as the miners have blocks, and as many in the
  -- chain as they have valid ones.
  pub record IsCounted (k : ℕ) (s : Statistics Double) : Type 0 where
    pub in_chain : s.blocks_in_chain ≡ sum s.miner_valid_blocks
    pub processed : s.total_blocks_processed ≡ sum s.miner_valid_blocks + sum s.miner_invalid_blocks
    pub few : s.total_blocks_processed ≤ k

  module _ (msg : StatisticsMessage) (s : Statistics Double) where
    pub count_invalid-at :
        {xs : List ℕ}
        → add_at s.miner_invalid_blocks (miner_index msg) 1 ≡ some xs
        → count_invalid Double add msg s
          ≡ some (record s {
            miner_invalid_blocks = xs;
            total_blocks_processed = u32 (s.total_blocks_processed + 1);
          })
    unfolding count_invalid
    count_invalid-at e = rw (e, count_invalid)

    pub count_invalid-out :
        add_at s.miner_invalid_blocks (miner_index msg) 1 ≡ none
        → count_invalid Double add msg s ≡ none
    unfolding count_invalid
    count_invalid-out e = rw (e, count_invalid)

    pub count_valid-at :
        {xs ys : List ℕ}
        → add_at s.miner_valid_blocks (miner_index msg) 1 ≡ some xs
        → add_at s.miner_credits (miner_index msg) msg.earned_amount ≡ some ys
        → count_valid Double add msg s
          ≡ some (record s {
            miner_valid_blocks = xs;
            miner_credits = ys;
            total_blocks_processed = u32 (s.total_blocks_processed + 1);
            blocks_in_chain = u32 (s.blocks_in_chain + 1);
          })
    unfolding count_valid
    count_valid-at e f = rw (e, f, count_valid)

    pub count_valid-out :
        add_at s.miner_valid_blocks (miner_index msg) 1 ≡ none → count_valid Double add msg s ≡ none
    unfolding count_valid
    count_valid-out e = rw (e, count_valid)

    count_valid-no_credits :
        {xs : List ℕ}
        → add_at s.miner_valid_blocks (miner_index msg) 1 ≡ some xs
        → add_at s.miner_credits (miner_index msg) msg.earned_amount ≡ none
        → count_valid Double add msg s ≡ none
    unfolding count_valid
    count_valid-no_credits e f = rw (e, f, count_valid)

    pub time_block-at :
        (n : ℕ) (l : Ledger) {b : TransactionBlock}
        → get_elem? l.blocks msg.block_index ≡ some b
        → time_block Double add n l msg s
          ≡ some (record s {
            total_tx_time =
                add_times Double add s.total_tx_time msg.timestamp (take n b.transactions);
          })
    unfolding time_block
    time_block-at n l e = rw (e, time_block)

    time_block-out :
        (n : ℕ) (l : Ledger)
        → get_elem? l.blocks msg.block_index ≡ none
        → time_block Double add n l msg s ≡ none
    unfolding time_block
    time_block-out n l e = rw (e, time_block)

  module _ (k : ℕ) (bound : suc k < 2 ^ 32) (msg : StatisticsMessage) (s : Statistics Double)
      (v : IsCounted k s) where
    count_invalid-IsCounted :
        {s' : Statistics Double} → count_invalid Double add msg s ≡ some s' → IsCounted (suc k) s'
    count_invalid-IsCounted e =
        elim (Option-cases (add_at s.miner_invalid_blocks (miner_index msg) 1)) [
          | inl out ↦ absurd (cc (e, count_invalid-out msg s out))
          | inr (xs, there) ↦
              let one =
                add_one-sum s.miner_invalid_blocks (miner_index msg)
                  (omega (arith, v.processed, v.few)) there in
              subst (IsCounted (suc k)) (some_inj (sym (count_invalid-at msg s there) ∙ e))
                (record {
                  in_chain = v.in_chain;
                  processed = omega (arith, one, v.processed, v.few);
                  few = omega (arith, v.few);
                })
        ]

    count_valid-IsCounted :
        {s' : Statistics Double} → count_valid Double add msg s ≡ some s' → IsCounted (suc k) s'
    count_valid-IsCounted e =
        elim (Option-cases (add_at s.miner_valid_blocks (miner_index msg) 1)) [
          | inl out ↦ absurd (cc (e, count_valid-out msg s out))
          | inr (xs, there) ↦
              elim (Option-cases (add_at s.miner_credits (miner_index msg) msg.earned_amount)) [
                | inl out ↦ absurd (cc (e, count_valid-no_credits msg s there out))
                | inr (ys, too) ↦
                    let one =
                      add_one-sum s.miner_valid_blocks (miner_index msg)
                        (omega (arith, v.processed, v.few)) there in
                    subst (IsCounted (suc k)) (some_inj (sym (count_valid-at msg s there too) ∙ e))
                      (record {
                        in_chain = omega (arith, one, v.processed, v.in_chain, v.few);
                        processed = omega (arith, one, v.processed, v.few);
                        few = omega (arith, v.few);
                      })
              ]
        ]

  time_block-IsCounted :
      (k n : ℕ) (l : Ledger) (msg : StatisticsMessage) (s : Statistics Double)
      → IsCounted k s
      → {s' : Statistics Double} → time_block Double add n l msg s ≡ some s'
      → IsCounted k s'
  time_block-IsCounted k n l msg s v e = elim (Option-cases (get_elem? l.blocks msg.block_index)) [
    | inl out ↦ absurd (cc (e, time_block-out msg s n l out))
    | inr (b, there) ↦
        subst (IsCounted k) (some_inj (sym (time_block-at msg s n l there) ∙ e))
          (record { in_chain = v.in_chain; processed = v.processed; few = v.few })
  ]

  pub handle_message-valid :
      (n : ℕ) (l : Ledger) (msg : StatisticsMessage) (s : Statistics Double)
      {s' : Statistics Double}
      → (msg.block_index == minus_one) ≡ false
      → count_valid Double add msg s ≡ some s'
      → handle_message Double add n l msg s ≡ time_block Double add n l msg s'
  unfolding handle_message
  handle_message-valid n l msg s other e = rw (other, e, handle_message)

  pub handle_message-fault :
      (n : ℕ) (l : Ledger) (msg : StatisticsMessage) (s : Statistics Double)
      → (msg.block_index == minus_one) ≡ false
      → count_valid Double add msg s ≡ none
      → handle_message Double add n l msg s ≡ none
  unfolding handle_message
  handle_message-fault n l msg s other e = rw (other, e, handle_message)

  pub handle_message-invalid :
      (n : ℕ) (l : Ledger) (msg : StatisticsMessage) (s : Statistics Double)
      → (msg.block_index == minus_one) ≡ true
      → handle_message Double add n l msg s ≡ count_invalid Double add msg s
  unfolding handle_message
  handle_message-invalid n l msg s e = rw (e, handle_message)

  pub handle_message-IsCounted :
      (k n : ℕ) (l : Ledger) (msg : StatisticsMessage) (s : Statistics Double)
      → suc k < 2 ^ 32
      → IsCounted k s
      → {s' : Statistics Double} → handle_message Double add n l msg s ≡ some s'
      → IsCounted (suc k) s'
  handle_message-IsCounted k n l msg s bound v e =
      elim (Bool-cases (msg.block_index == minus_one)) [
        | inl invalid ↦
            count_invalid-IsCounted k bound msg s v
              (sym (handle_message-invalid n l msg s invalid) ∙ e)
        | inr other ↦ elim (Option-cases (count_valid Double add msg s)) [
          | inl out ↦ absurd (cc (e, handle_message-fault n l msg s other out))
          | inr (t, counted) ↦
              time_block-IsCounted (suc k) n l msg t (count_valid-IsCounted k bound msg s v counted)
                (sym (handle_message-valid n l msg s other counted) ∙ e)
        ]
      ]
