-- ===== src/Controller/Dump/Tests.antt =====
-- Examples for the dump of the ledger.
use projeto_so.Base.{ℕ, ◌<◌, ◌≤◌, ◌≡◌, refl, true, List, [], ◌∷◌, length, leb, arith, codes, c_str}
use projeto_so.Libc.{digits}
use projeto_so.Chain.{TransactionBlock, Ledger}
use projeto_so.Controller.Dump.{
  estimated_size, format_long, texts, in_temp, block_header, transaction_line, transaction_lines,
  dump_block, dump_blocks, dump_ledger,
}
use projeto_so.Controller.Dump.Fits.{AllShort, AllShortBlocks, dump_ledger-fits}
use projeto_so.Samples.{payment, mined_block, ledger_of_one}

abbrev one_value : ℕ → List ℕ
one_value v = codes "1.00"

abbrev block_of_five : TransactionBlock
block_of_five = record mined_block {
  transactions = payment ∷ payment ∷ payment ∷ payment ∷ payment ∷ [];
}

abbrev ledger_of_five : Ledger
ledger_of_five = record ledger_of_one { blocks = block_of_five ∷ block_of_five ∷ []; count = 2 }

ledger_of_five-AllShortBlocks : AllShortBlocks one_value ledger_of_five.blocks
unfolding c_str
ledger_of_five-AllShortBlocks =
    let short : (length (c_str payment.tx_id) ≤ 24) × (length (one_value payment.value) ≤ 12) =
      (omega arith, omega arith) in
    let block : AllShort one_value block_of_five.transactions =
      (short, (short, (short, (short, (short, tt))))) in
    (block, (block, tt))

dump_ledger-fits_example : length (dump_ledger one_value 5 ledger_of_five) < estimated_size 2 5
dump_ledger-fits_example =
    dump_ledger-fits one_value 5 ledger_of_five ledger_of_five-AllShortBlocks (omega arith)
      (omega arith)

-- With one transaction a block, the text of two blocks is longer than the buffer.
abbrev ledger_of_two : Ledger
ledger_of_two = record ledger_of_one { blocks = mined_block ∷ mined_block ∷ []; count = 2 }

dump_overflows : leb (estimated_size 2 1) (length (dump_ledger one_value 1 ledger_of_two)) ≡ true
unfolding estimated_size format_long texts in_temp block_header transaction_line transaction_lines
    dump_block dump_blocks dump_ledger digits c_str
dump_overflows = refl
