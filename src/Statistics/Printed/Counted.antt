-- ===== src/Statistics/Printed/Counted.antt =====
-- The counts of src/Statistics.c after a run of messages that name miners and blocks of the ledger.
use projeto_so.Base.{
  ℕ, ◌+◌, ◌<◌, ◌≤◌, ◌^◌, ◌≡◌, refl, ◌∙◌, ◌⊎◌, inl, inr, List, [], ◌∷◌, Option, some, arith, Bool,
  true, false, Bool-cases, length, ltb, leb, if◌then◌else◌, get_elem?_of_lt, length-set, set, u32,
  ◌==◌, minus_one,
}
use projeto_so.Chain.{Ledger, StatisticsMessage}
use projeto_so.Chain.Layout.{message_size}
use projeto_so.Statistics.{
  Statistics, add_at, miner_index, count_invalid, count_valid, handle_message, receive, receive_all,
}
use projeto_so.Statistics.Totals.{
  add_at-at, count_invalid-at, count_valid-at, time_block-at, handle_message-valid,
  handle_message-invalid,
}
use projeto_so.Statistics.Messages.{receive-whole, receive-short, receive_all-cons}
use projeto_so.Statistics.Reports.{HasMiners}

-- A message about one of the miners, and on no block or one that the ledger has.
pub record IsKnown (num_miners : ℕ) (l : Ledger) (msg : StatisticsMessage) : Type 0 where
  pub miner : miner_index msg < num_miners
  pub block : (msg.block_index ≡ minus_one) ⊎ (msg.block_index < length l.blocks)

abbrev pub AllKnown : ℕ → List (Ledger × ℕ × StatisticsMessage) → Type 0
AllKnown num_miners [] = Unit {0}
AllKnown num_miners ((l, bytes, msg) ∷ rest) = IsKnown num_miners l msg × AllKnown num_miners rest

add_at-length :
    (xs : List ℕ) (i a : ℕ)
    → i < length xs
    → (ys : List ℕ) × (add_at xs i a ≡ some ys) × (length ys ≡ length xs)
add_at-length xs i a h =
    let (x, there) = get_elem?_of_lt xs i h in
    (set xs i (u32 (x + a)), add_at-at xs i a x there, length-set xs i (u32 (x + a)))

-- The messages of which all bytes came.
abbrev pub whole_messages : List (Ledger × ℕ × StatisticsMessage) → ℕ
whole_messages [] = 0
whole_messages ((l, bytes, msg) ∷ rest) =
    (if leb message_size bytes then 1 else 0) + whole_messages rest

abbrev names_block : StatisticsMessage → ℕ
names_block msg = if msg.block_index == minus_one then 0 else 1

-- Those of them that are about a block of the ledger.
abbrev pub valid_messages : List (Ledger × ℕ × StatisticsMessage) → ℕ
valid_messages [] = 0
valid_messages ((l, bytes, msg) ∷ rest) =
    (if leb message_size bytes then names_block msg else 0) + valid_messages rest

module _ (Double : Type 0) (add : Double → ℕ → Double) (num_miners : ℕ) where
  -- The code goes on, with so many more blocks processed and in the chain.
  pub record GoesOn (blocks valid : ℕ) (s : Statistics Double) (o : Option (Statistics Double))
      : Type 0 where
    pub after : Statistics Double
    pub result : o ≡ some after
    pub arrays : HasMiners num_miners after
    pub processed : after.total_blocks_processed ≡ s.total_blocks_processed + blocks
    pub in_chain : after.blocks_in_chain ≡ s.blocks_in_chain + valid

  -- There is room for `left` more in the two totals.
  pub record Below (left : ℕ) (s : Statistics Double) : Type 0 where
    pub processed : s.total_blocks_processed + left < 2 ^ 32
    pub in_chain : s.blocks_in_chain + left < 2 ^ 32

  module _ (msg : StatisticsMessage) (known : miner_index msg < num_miners) (s : Statistics Double)
      (v : HasMiners num_miners s) (room : Below 1 s) where
    count_invalid-GoesOn : GoesOn 1 0 s (count_invalid Double add msg s)
    count_invalid-GoesOn =
        let (xs, e, same) =
          add_at-length s.miner_invalid_blocks (miner_index msg) 1
            (omega (arith, v.invalid, known)) in
        record {
          after = _;
          result = count_invalid-at Double add msg s e;
          arrays = record { valid = v.valid; invalid = same ∙ v.invalid; credits = v.credits };
          processed = omega (arith, room.processed);
          in_chain = omega arith;
        }

    count_valid-GoesOn : GoesOn 1 1 s (count_valid Double add msg s)
    count_valid-GoesOn =
        let (xs, e, same) =
          add_at-length s.miner_valid_blocks (miner_index msg) 1 (omega (arith, v.valid, known)) in
        let (ys, f, too) =
          add_at-length s.miner_credits (miner_index msg) msg.earned_amount
            (omega (arith, v.credits, known)) in
        record {
          after = _;
          result = count_valid-at Double add msg s e f;
          arrays = record {
            valid = same ∙ v.valid;
            invalid = v.invalid;
            credits = too ∙ v.credits;
          };
          processed = omega (arith, room.processed);
          in_chain = omega (arith, room.in_chain);
        }

  handle_message-GoesOn :
      (n : ℕ) (l : Ledger) (msg : StatisticsMessage) (s : Statistics Double)
      → IsKnown num_miners l msg
      → HasMiners num_miners s
      → Below 1 s
      → GoesOn 1 (names_block msg) s (handle_message Double add n l msg s)
  handle_message-GoesOn n l msg s k v room = elim (Bool-cases (msg.block_index == minus_one)) [
    | inl invalid ↦
        let g = count_invalid-GoesOn msg k.miner s v room in
        record {
          after = g.after;
          result = handle_message-invalid Double add n l msg s invalid ∙ g.result;
          arrays = g.arrays;
          processed = g.processed;
          in_chain = rw invalid g.in_chain;
        }
    | inr other ↦
        let g = count_valid-GoesOn msg k.miner s v room in
        let w = g.arrays in
        let inside : msg.block_index < length l.blocks = elim k.block [
          | inl none_there ↦ absurd (ground (arith, other, none_there))
          | inr below ↦ below
        ] in
        let (b, there) = get_elem?_of_lt l.blocks msg.block_index inside in
        record {
          after = _;
          result =
              handle_message-valid Double add n l msg s other g.result
              ∙ time_block-at Double add msg g.after n l there;
          arrays = record { valid = w.valid; invalid = w.invalid; credits = w.credits };
          processed = g.processed;
          in_chain = rw other g.in_chain;
        }
  ]

  receive-GoesOn :
      (n : ℕ) (l : Ledger) (bytes : ℕ) (msg : StatisticsMessage) (s : Statistics Double)
      → IsKnown num_miners l msg
      → HasMiners num_miners s
      → Below 1 s
      → GoesOn
          (if leb message_size bytes then 1 else 0)
          (if leb message_size bytes then names_block msg else 0)
          s
          (receive Double add n l bytes msg s)
  receive-GoesOn n l bytes msg s k v room = elim (Bool-cases (ltb bytes message_size)) [
    | inl short ↦
        let few : leb message_size bytes ≡ false = ground (arith, short) in
        rw few record {
          after = s;
          result = receive-short Double add n l bytes msg s short;
          arrays = v;
          processed = omega arith;
          in_chain = omega arith;
        }
    | inr whole ↦
        let all : leb message_size bytes ≡ true = ground (arith, whole) in
        let g = handle_message-GoesOn n l msg s k v room in
        rw all record {
          after = g.after;
          result = receive-whole Double add n l bytes msg s whole ∙ g.result;
          arrays = g.arrays;
          processed = g.processed;
          in_chain = g.in_chain;
        }
  ]

  at_most_one : (b : Bool) (c : ℕ) → c ≤ 1 → (if b then c else 0) ≤ 1
  at_most_one true c h = h
  at_most_one false c h = omega arith

  names_block-small : (msg : StatisticsMessage) → names_block msg ≤ 1
  names_block-small msg = ground arith

  pub receive_all-GoesOn :
      (n : ℕ) (messages : List (Ledger × ℕ × StatisticsMessage)) (s : Statistics Double)
      → AllKnown num_miners messages
      → HasMiners num_miners s
      → Below (length messages) s
      → GoesOn
          (whole_messages messages)
          (valid_messages messages)
          s
          (receive_all Double add n messages s)
  unfolding receive_all
  receive_all-GoesOn n [] s k v room = record {
    after = s;
    result = refl;
    arrays = v;
    processed = omega arith;
    in_chain = omega arith;
  }
  receive_all-GoesOn n ((l, bytes, msg) ∷ rest) s (k, others) v room =
      let one : Below 1 s = record {
        processed = omega (arith, room.processed);
        in_chain = omega (arith, room.in_chain);
      } in
      let g = receive-GoesOn n l bytes msg s k v one in
      let left : Below (length rest) g.after = record {
        processed = omega (
          arith,
          room.processed,
          g.processed,
          at_most_one (leb message_size bytes) 1 (omega arith),
        );
        in_chain = omega (
          arith,
          room.in_chain,
          g.in_chain,
          at_most_one (leb message_size bytes) (names_block msg) (names_block-small msg),
        );
      } in
      let h = receive_all-GoesOn n rest g.after others g.arrays left in
      record {
        after = h.after;
        result = receive_all-cons Double add n l bytes msg rest s g.result ∙ h.result;
        arrays = h.arrays;
        processed = omega (arith, g.processed, h.processed);
        in_chain = omega (arith, g.in_chain, h.in_chain);
      }
