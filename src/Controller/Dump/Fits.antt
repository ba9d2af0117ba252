-- ===== src/Controller/Dump/Fits.antt =====
-- The buffer of dump_ledger of src/Controller.c.
use projeto_so.Base.{
  ℕ, zero, suc, ◌+◌, ◌-◌, ◌*◌, ◌/◌, ◌%◌, ◌^◌, ◌≤◌, ◌<◌, ◌≡◌, refl, inl, inr, Bool-cases, List, [],
  ◌∷◌, take, length, length-append, c_str, codes, arith, u64, ltb, ◌==◌,
}
use projeto_so.Libc.{digits}
use projeto_so.Chain.{Transaction, TransactionBlock, Ledger}
use projeto_so.Controller.Dump.{
  estimated_size, format_long, texts, in_temp, block_header, transaction_line, transaction_lines,
  dump_block, dump_blocks, dump_ledger,
}

length-digits : (fuel n : ℕ) → length (digits fuel n) ≤ fuel
unfolding digits
length-digits zero n = omega arith
length-digits (suc fuel) n = elim (Bool-cases (ltb n 10)) [
  | inl last ↦ rw last (omega arith)
  | inr more ↦ rw more (
      omega (
        arith,
        length-digits fuel (n / 10),
        length-append (digits fuel (n / 10)) ((b'0' + n % 10) ∷ []),
      ))
]

length-take_le :
    {A : Type 0} (k : ℕ) (xs : List A) → (length (take k xs) ≤ k) × (length (take k xs) ≤ length xs)
length-take_le zero xs = (omega arith, omega arith)
length-take_le (suc k) [] = (omega arith, omega arith)
length-take_le (suc k) (x ∷ xs) =
    let (a, b) = length-take_le k xs in (omega (arith, a), omega (arith, b))

length-format_long : (n : ℕ) → length (format_long n) ≤ 20
unfolding format_long
length-format_long n = elim (Bool-cases (ltb n (2 ^ 63))) [
  | inl up ↦ rw up (omega (arith, length-digits 19 n))
  | inr down ↦ rw down (omega (arith, length-digits 19 (2 ^ 64 - n)))
]

abbrev sum_lengths : List (List ℕ) → ℕ
sum_lengths [] = 0
sum_lengths (x ∷ xs) = length x + sum_lengths xs

length-texts : (xs : List (List ℕ)) → length (texts xs) ≡ sum_lengths xs
unfolding texts
length-texts [] = refl
length-texts (x ∷ xs) = omega (arith, length-append x (texts xs), length-texts xs)

length-transaction_line :
    (format_value : ℕ → List ℕ) (j : ℕ) (t : Transaction)
    → length (c_str t.tx_id) ≤ 24
    → length (format_value t.value) ≤ 12
    → length (transaction_line format_value j t) ≤ 120
unfolding transaction_line in_temp
length-transaction_line format_value j t id value = omega (
  arith,
  (length-take_le 255 (texts _)).1,
  length-texts _,
  length-digits 10 j,
  length-digits 10 t.reward,
  length-format_long t.timestamp,
  id,
  value,
)

-- A transaction whose id and whose printed value are short.
abbrev pub IsShort : (ℕ → List ℕ) → Transaction → Type 0
IsShort format_value t = (length (c_str t.tx_id) ≤ 24) × (length (format_value t.value) ≤ 12)

abbrev pub AllShort : (ℕ → List ℕ) → List Transaction → Type 0
AllShort format_value [] = Unit {0}
AllShort format_value (t ∷ ts) = IsShort format_value t × AllShort format_value ts

abbrev pub AllShortBlocks : (ℕ → List ℕ) → List TransactionBlock → Type 0
AllShortBlocks format_value [] = Unit {0}
AllShortBlocks format_value (b ∷ bs) =
    AllShort format_value b.transactions × AllShortBlocks format_value bs

length-transaction_lines :
    (format_value : ℕ → List ℕ) (n j : ℕ) (ts : List Transaction)
    → AllShort format_value ts
    → length (transaction_lines format_value j (take n ts)) ≤ n * 120
unfolding transaction_lines
length-transaction_lines format_value zero j ts all = omega arith
length-transaction_lines format_value (suc n) j [] all = omega arith
length-transaction_lines format_value (suc n) j (t ∷ ts) ((id, value), all) = omega (
  arith,
  length-append (transaction_line format_value j t)
      (transaction_lines format_value (suc j) (take n ts)),
  length-transaction_line format_value j t id value,
  length-transaction_lines format_value n (suc j) ts all,
)

length-dump_block :
    (format_value : ℕ → List ℕ) (n i : ℕ) (b : TransactionBlock)
    → AllShort format_value b.transactions
    → length (dump_block format_value n i b) ≤ n * 120 + 295
unfolding dump_block block_header in_temp
length-dump_block format_value n i b all = elim (Bool-cases (length (c_str b.txb_id) == 0)) [
  | inl empty ↦ rw empty (omega arith)
  | inr named ↦ rw named (
      omega (
        arith,
        length-texts (
            block_header i b
            ∷ transaction_lines format_value 0 (take n b.transactions)
            ∷ codes "||-------------------------------------\n"
            ∷ []),
        (length-take_le 255 (texts _)).0,
        length-transaction_lines format_value n 0 b.transactions all,
      ))
]

length-dump_blocks :
    (format_value : ℕ → List ℕ) (n k i : ℕ) (bs : List TransactionBlock)
    → AllShortBlocks format_value bs
    → length (dump_blocks format_value n i (take k bs)) ≤ k * (n * 120 + 295)
unfolding dump_blocks
length-dump_blocks format_value n zero i bs all = omega arith
length-dump_blocks format_value n (suc k) i [] all = omega arith
length-dump_blocks format_value n (suc k) i (b ∷ bs) (short, all) =
    let first = length-dump_block format_value n i b short in
    let rest = length-dump_blocks format_value n k (suc i) bs all in
    omega (
      arith,
      length-append (dump_block format_value n i b)
          (dump_blocks format_value n (suc i) (take k bs)),
      first,
      rest,
    )

-- With at least five transactions a block, the text of the dump and its NUL fit into the buffer
-- that dump_ledger allocates, if no transaction id is longer than 24 bytes, no value prints in more
-- than 12, and the size is one that a size_t holds.
pub dump_ledger-fits :
    (format_value : ℕ → List ℕ) (n : ℕ) (l : Ledger)
    → AllShortBlocks format_value l.blocks
    → 5 ≤ n
    → 256 + l.count * 180 * n < 2 ^ 64
    → length (dump_ledger format_value n l) < estimated_size l.count n
unfolding dump_ledger estimated_size
dump_ledger-fits format_value n l short many small =
    let blocks = length-dump_blocks format_value n l.count 0 l.blocks short in
    let whole : u64 (256 + l.count * 180 * n) ≡ 256 + l.count * 180 * n = omega (arith, small) in
    omega (
      arith,
      blocks,
      whole,
      length-texts (
          codes "\n=================== Start Ledger ===================\n"
          ∷ dump_blocks format_value n 0 (take l.count l.blocks)
          ∷ codes "=================== End Ledger ===================\n"
          ∷ []),
      enough l.count n many,
    )
  where
    enough : (k n : ℕ) → 5 ≤ n → k * (n * 120 + 295) ≤ k * 180 * n
    enough zero n h = omega arith
    enough (suc k) n h = omega (arith, enough k n h, h)
