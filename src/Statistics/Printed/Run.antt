-- ===== src/Statistics/Printed/Run.antt =====
-- What the statistics process counts and prints for a run of messages.
use projeto_so.Base.{
  ℕ, zero, suc, ◌+◌, ◌<◌, ◌≤◌, ◌^◌, ◌≡◌, refl, ap, List, [], ◌∷◌, some, arith, length,
  get_elem?_of_lt, length-replicate,
}
use mathlib.Core.Option.{bind}
use projeto_so.Chain.{Ledger, StatisticsMessage}
use projeto_so.Statistics.{Statistics, new_statistics, receive_all}
use projeto_so.Statistics.Totals.{sum}
use projeto_so.Statistics.Messages.{receive_all-IsCounted, new_statistics-IsCounted}
use projeto_so.Statistics.Reports.{HasMiners}
use projeto_so.Statistics.Printed.Counted.{
  AllKnown, whole_messages, valid_messages, receive_all-GoesOn,
}
use projeto_so.Statistics.Printed.{
  miner_line, with_totals, print_miner, print_miners, print_statistics,
}

module _ {Double : Type 0} (num_miners : ℕ) (s : Statistics Double)
    (v : HasMiners num_miners s) where
  print_miner-some : (i : ℕ) → i < num_miners → (line : List ℕ) × (print_miner s i ≡ some line)
  unfolding print_miner bind
  print_miner-some i h =
      let (x, e) = get_elem?_of_lt s.miner_valid_blocks i (omega (arith, v.valid, h)) in
      let (y, f) = get_elem?_of_lt s.miner_invalid_blocks i (omega (arith, v.invalid, h)) in
      let (z, g) = get_elem?_of_lt s.miner_credits i (omega (arith, v.credits, h)) in
      (miner_line i x y z, simp (e, f, g) refl)

  print_miners-some :
      (i left : ℕ)
      → i + left ≤ num_miners
      → (lines : List (List ℕ)) × (print_miners s i left ≡ some lines) × (length lines ≡ left)
  unfolding print_miners bind
  print_miners-some i zero h = ([], refl, refl)
  print_miners-some i (suc left) h =
      let (line, e) = print_miner-some i (omega (arith, h)) in
      let (lines, f, same) = print_miners-some (suc i) left (omega (arith, h)) in
      (line ∷ lines, simp (e, f) refl, ap suc same)

  print_statistics-some :
      (format_mean : Double → ℕ → List ℕ) (n : ℕ)
      → (lines : List (List ℕ)) × (print_statistics format_mean n num_miners s ≡ some lines)
        × (length lines ≡ num_miners + 4)
  unfolding print_statistics with_totals bind
  print_statistics-some format_mean n =
      let (lines, e, same) = print_miners-some 0 num_miners (omega arith) in
      (with_totals format_mean n s lines, simp e refl, omega (arith, same))

new_statistics-HasMiners :
    {Double : Type 0} (add : Double → ℕ → Double) (nought : Double) (num_miners : ℕ)
    → HasMiners num_miners (new_statistics Double add nought num_miners)
unfolding new_statistics
new_statistics-HasMiners add nought num_miners = record {
  valid = length-replicate num_miners 0;
  invalid = length-replicate num_miners 0;
  credits = length-replicate num_miners 0;
}

-- Of fewer than 2^32 messages that each name a miner and no block or one of the ledger, those of
-- which all bytes came are counted, without an access out of bounds: their number is the total of
-- processed blocks and the sum of the miners' valid and invalid ones, the number of those about a
-- block is that of the blocks in the chain and the sum of the valid ones, and the statistics print
-- four lines and one for each miner.
pub receive_all-printed :
    {Double : Type 0} (add : Double → ℕ → Double) (nought : Double)
    (format_mean : Double → ℕ → List ℕ) (n num_miners : ℕ)
    (messages : List (Ledger × ℕ × StatisticsMessage))
    → length messages < 2 ^ 32
    → AllKnown num_miners messages
    → (s : Statistics Double) × (lines : List (List ℕ)) × (receive_all Double add n messages
          (new_statistics Double add nought num_miners)
        ≡ some s)
      × (print_statistics format_mean n num_miners s ≡ some lines)
      × (length lines ≡ num_miners + 4)
      × (s.total_blocks_processed ≡ whole_messages messages)
      × (s.blocks_in_chain ≡ valid_messages messages)
      × (s.total_blocks_processed ≡ sum s.miner_valid_blocks + sum s.miner_invalid_blocks)
      × (s.blocks_in_chain ≡ sum s.miner_valid_blocks)
unfolding new_statistics
receive_all-printed {Double} add nought format_mean n num_miners messages few known =
    let start = new_statistics Double add nought num_miners in
    let g =
      receive_all-GoesOn Double add num_miners n messages start known
        (new_statistics-HasMiners add nought num_miners)
        (record { processed = omega (arith, few); in_chain = omega (arith, few) }) in
    let (lines, f, many) = print_statistics-some num_miners g.after g.arrays format_mean n in
    let c =
      receive_all-IsCounted Double add 0 n messages start g.after (omega (arith, few))
        (new_statistics-IsCounted Double add nought num_miners) g.result in
    (
      g.after,
      lines,
      g.result,
      f,
      many,
      omega (arith, g.processed),
      omega (arith, g.in_chain),
      c.processed,
      c.in_chain,
    )
