-- ===== src/Statistics/Reports.antt =====
-- What the messages of a validator do to the statistics.
use projeto_so.Base.{
  ℕ, ◌+◌, ◌-◌, ◌<◌, ◌^◌, ◌≡◌, ◌≢◌, refl, ap, ◌∙◌, false, List, [], ◌∷◌, ◌%◌, u64, none, some, arith,
  length, get_elem?, get_elem?_of_lt, get_elem?_of_le, set, get_elem?-set_self, get_elem?-set_ne,
  u32, minus_one, take, ◌==◌,
}
use projeto_so.Libc.{atoi}
use projeto_so.Chain.{Transaction, TransactionBlock, AllTransactions, Ledger, StatisticsMessage}
use projeto_so.Validator.Messages.{
  sum_rewards, skipped_message, inserted_message, scan_miner_id, miner_id_field,
}
use projeto_so.Validator.Messages.MinerId.{
  block_id, miner_id_field-block_id, miner_id_field-none, atoi-minus_one,
}
use projeto_so.Statistics.{Statistics, add_at, miner_index, add_times, handle_message}
use projeto_so.Statistics.Totals.{
  add_at-at, add_at-out, count_invalid-at, count_invalid-out, count_valid-at, time_block-at,
  handle_message-valid, handle_message-invalid,
}

-- One entry of an array grew by `a`, and no other changed.
pub record GrewAt (xs : List ℕ) (i a : ℕ) (ys : List ℕ) : Type 0 where
  pub old : ℕ
  pub was : get_elem? xs i ≡ some old
  pub now : get_elem? ys i ≡ some (u32 (old + a))
  pub others : (j : ℕ) → i ≢ j → get_elem? ys j ≡ get_elem? xs j

add_at-GrewAt :
    (xs : List ℕ) (i a : ℕ)
    → i < length xs
    → (ys : List ℕ) × (add_at xs i a ≡ some ys) × GrewAt xs i a ys
add_at-GrewAt xs i a lt =
    let (x, there) = get_elem?_of_lt xs i lt in
    (
      set xs i (u32 (x + a)),
      add_at-at xs i a x there,
      record {
        old = x;
        was = there;
        now = get_elem?-set_self xs i (u32 (x + a)) lt;
        others = λ j ne. get_elem?-set_ne xs (u32 (x + a)) ne;
      },
    )

-- The arrays have an entry for each miner.
pub record HasMiners {D : Type 0} (num_miners : ℕ) (s : Statistics D) : Type 0 where
  pub valid : length s.miner_valid_blocks ≡ num_miners
  pub invalid : length s.miner_invalid_blocks ≡ num_miners
  pub credits : length s.miner_credits ≡ num_miners

-- The rewards together.
abbrev pub total_reward : List Transaction → ℕ
total_reward [] = 0
total_reward (t ∷ ts) = t.reward + total_reward ts

sum_rewards-total_reward :
    (acc : ℕ) (ts : List Transaction)
    → acc < 2 ^ 32
    → sum_rewards acc ts ≡ u32 (acc + total_reward ts)
unfolding sum_rewards
sum_rewards-total_reward acc [] small = omega arith
sum_rewards-total_reward acc (t ∷ ts) small =
    omega (arith, sum_rewards-total_reward (u32 (acc + t.reward)) ts (omega arith))

-- The time from each transaction to `now`, as a 64-bit number.
pub data Waited (now : ℕ) : List Transaction → List ℕ → Type 0 where
  none_left : Waited now [] []
  one_more :
      {t : Transaction} {ts : List Transaction} {wait : ℕ} {waits : List ℕ}
      → wait < 2 ^ 64
      → (t.timestamp + wait) % 2 ^ 64 ≡ now % 2 ^ 64
      → Waited now ts waits
      → Waited now (t ∷ ts) (wait ∷ waits)

-- The sum of the numbers, one after the other.
abbrev pub add_all : {D : Type 0} → (D → ℕ → D) → D → List ℕ → D
add_all add total [] = total
add_all add total (x ∷ xs) = add_all add (add total x) xs

add_times-Waited :
    {D : Type 0} (add : D → ℕ → D) (total : D) (now : ℕ) (ts : List Transaction)
    → AllTransactions ts
    → (waits : List ℕ) × Waited now ts waits
      × (add_times D add total now ts ≡ add_all add total waits)
unfolding add_times
add_times-Waited add total now [] all = ([], none_left, refl)
add_times-Waited add total now (t ∷ ts) (v, all) =
    let wait = u64 (now + (18446744073709551616 - t.timestamp)) in
    let (waits, waited, e) = add_times-Waited add (add total wait) now ts all in
    (wait ∷ waits, one_more (omega arith) (omega (arith, v.timestamp)) waited, e)

module _ (Double : Type 0) (add : Double → ℕ → Double) where
  -- The miner at index `i` has one more valid block and the rewards of its transactions, and the waits of
  -- the stored block's transactions are added.
  pub record Credited (n : ℕ) (b stored : TransactionBlock) (i now : ℕ) (s s' : Statistics Double)
      : Type 0 where
    pub valid : GrewAt s.miner_valid_blocks i 1 s'.miner_valid_blocks
    pub credits : GrewAt s.miner_credits i (total_reward (take n b.transactions)) s'.miner_credits
    pub invalid : s'.miner_invalid_blocks ≡ s.miner_invalid_blocks
    pub processed : s'.total_blocks_processed ≡ u32 (s.total_blocks_processed + 1)
    pub in_chain : s'.blocks_in_chain ≡ u32 (s.blocks_in_chain + 1)
    pub waits : List ℕ
    pub waited : Waited now (take n stored.transactions) waits
    pub times : s'.total_tx_time ≡ add_all add s.total_tx_time waits

  -- The miner at index `i` has one more invalid block.
  pub record Blamed (i : ℕ) (s s' : Statistics Double) : Type 0 where
    pub invalid : GrewAt s.miner_invalid_blocks i 1 s'.miner_invalid_blocks
    pub valid : s'.miner_valid_blocks ≡ s.miner_valid_blocks
    pub credits : s'.miner_credits ≡ s.miner_credits
    pub processed : s'.total_blocks_processed ≡ u32 (s.total_blocks_processed + 1)
    pub in_chain : s'.blocks_in_chain ≡ s.blocks_in_chain

  module _ (num_miners k number : ℕ) (b : TransactionBlock) (few : num_miners < 1_000_000)
      (miner : k < num_miners) (numbered : number < 2 ^ 31)
      (name : b.txb_id ≡ block_id (k + 1) number) where
    index : (msg : StatisticsMessage) → msg.miner_id ≡ miner_id_field b.txb_id → miner_index msg ≡ k
    unfolding miner_index
    index msg e =
        let read : atoi msg.miner_id ≡ k + 1 =
          ap atoi (e ∙ ap miner_id_field name)
          ∙ miner_id_field-block_id (k + 1) number (omega arith) numbered in
        omega (arith, read)

    -- The message of a validator on a block of miner thread k + 1 that stands in the ledger at a
    -- position below 2^31 gives that miner, and no other, one valid block and the sum of the
    -- block's rewards, and adds, one after the other, the 64-bit times from the transactions of the
    -- ledger's block at that position to the message; for fewer than a million miners, each with
    -- its place in the arrays, a block number below 2^31, and transactions whose fields hold values
    -- of their types.
    pub handle_message-inserted :
        (n position now : ℕ) (l : Ledger) (stored : TransactionBlock) (s : Statistics Double)
        → HasMiners num_miners s
        → position < 2 ^ 31
        → get_elem? l.blocks position ≡ some stored
        → AllTransactions (take n stored.transactions)
        → (s' : Statistics Double) × (handle_message Double add n l
              (inserted_message n b position now)
              s
            ≡ some s')
          × Credited n b stored k now s s'
    unfolding inserted_message
    handle_message-inserted n position now l stored s sized small there held =
        let msg = inserted_message n b position now in
        let at = index msg refl in
        let (xs, valid, grew) =
          add_at-GrewAt s.miner_valid_blocks k 1 (omega (arith, sized.valid)) in
        let (ys, credits, earned) =
          add_at-GrewAt s.miner_credits k (sum_rewards 0 (take n b.transactions))
            (omega (arith, sized.credits)) in
        let counted =
          count_valid-at Double add msg s (ap (λ i. add_at s.miner_valid_blocks i 1) at ∙ valid)
            (ap (λ i. add_at s.miner_credits i msg.earned_amount) at ∙ credits) in
        let rewards = sum_rewards-total_reward 0 (take n b.transactions) (omega arith) in
        let (waits, waited, times) =
          add_times-Waited add s.total_tx_time now (take n stored.transactions) held in
        let other : (position == minus_one) ≡ false = ground arith in
        (
          _,
          handle_message-valid Double add n l msg s other counted
              ∙ time_block-at Double add msg _ n l there,
          record {
            valid = grew;
            credits = record {
              old = earned.old;
              was = earned.was;
              now = earned.now ∙ ap some (omega (arith, rewards));
              others = earned.others;
            };
            invalid = refl;
            processed = refl;
            in_chain = refl;
            waits = waits;
            waited = waited;
            times = times;
          },
        )

    -- The message on a skipped block of miner thread k + 1 gives that miner, and no other, one
    -- invalid block, and changes no other count but that of the blocks processed; for fewer than a
    -- million miners, each with its place in the arrays, and a block number below 2^31.
    handle_message-skipped :
        (n : ℕ) (l : Ledger) (s : Statistics Double)
        → HasMiners num_miners s
        → (s' : Statistics Double) × (handle_message Double add n l (skipped_message b) s ≡ some s')
          × Blamed k s s'
    unfolding skipped_message
    handle_message-skipped n l s sized =
        let msg = skipped_message b in
        let (xs, invalid, grew) =
          add_at-GrewAt s.miner_invalid_blocks k 1 (omega (arith, sized.invalid)) in
        (
          _,
          handle_message-invalid Double add n l msg s refl
              ∙ count_invalid-at Double add msg s
                  (ap (λ i. add_at s.miner_invalid_blocks i 1) (index msg refl) ∙ invalid),
          record {
            invalid = grew;
            valid = refl;
            credits = refl;
            processed = refl;
            in_chain = refl;
          },
        )

  unnamed_index :
      (b : TransactionBlock) (msg : StatisticsMessage)
      → scan_miner_id b.txb_id ≡ none
      → msg.miner_id ≡ miner_id_field b.txb_id
      → miner_index msg ≡ 2 ^ 32 - 2
  unfolding miner_index
  unnamed_index b msg unnamed e =
      let read : atoi msg.miner_id ≡ minus_one =
        ap atoi (e ∙ miner_id_field-none b.txb_id unnamed) ∙ atoi-minus_one in
      omega (arith, read)

  -- The message on a skipped block whose id has no miner's number makes the statistics process
  -- write out of bounds, for fewer than 2^31 miners with their places in the arrays.
  pub handle_message-unnamed :
      (num_miners n : ℕ) (b : TransactionBlock) (l : Ledger) (s : Statistics Double)
      → HasMiners num_miners s
      → num_miners < 2 ^ 31
      → scan_miner_id b.txb_id ≡ none
      → handle_message Double add n l (skipped_message b) s ≡ none
  unfolding skipped_message
  handle_message-unnamed num_miners n b l s sized small unnamed =
      let msg = skipped_message b in
      let at = unnamed_index b msg unnamed refl in
      handle_message-invalid Double add n l msg s refl
      ∙ count_invalid-out Double add msg s (
          add_at-out s.miner_invalid_blocks _ 1 (
            ap (get_elem? s.miner_invalid_blocks) at
            ∙ get_elem?_of_le s.miner_invalid_blocks (2 ^ 32 - 2) (omega (arith, sized.invalid))))
