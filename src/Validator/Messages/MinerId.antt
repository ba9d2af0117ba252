-- ===== src/Validator/Messages/MinerId.antt =====
-- The number of the miner thread in the block ids of src/Miner.c and the messages of
-- src/Validator.c.
use projeto_so.Base.{
  ℕ, ◌≤◌, ◌<◌, ◌^◌, ◌≡◌, refl, sym, ap, ◌∙◌, some_inj, drop, List, [], ◌∷◌, ◌++◌, none, some, arith,
  length, length-append, replicate, c_str, codes, minus_one,
}
use projeto_so.Libc.{format_int, scan_digits, scan_int, scan_literal, snprintf, atoi}
use projeto_so.Libc.Copy.{IsPadded}
use projeto_so.Libc.Decimal.{scan_int-format_int}
use projeto_so.Libc.Names.{
  NoNul, NoNul-append, NoNul-format_int, length-format_int-le, c_str-snprintf, snprintf-IsPadded,
  atoi-snprintf,
}
use projeto_so.Chain.{txb_id_len}
use projeto_so.Validator.Messages.{scan_miner_id, miner_id_field}
use projeto_so.Miner.{block_name}

-- The id of a block in its buffer, as a miner thread prints it.
abbrev pub block_id : ℕ → ℕ → List ℕ
block_id thread_id number =
    snprintf (replicate txb_id_len 0) txb_id_len (block_name thread_id number)

module _ (thread_id number : ℕ) (small : thread_id < 2 ^ 31) (few : number < 2 ^ 31) where
  NoNul-block_name : NoNul (block_name thread_id number)
  unfolding block_name
  NoNul-block_name = NoNul-append (codes "BLOCK-") _ (omega arith) (
      NoNul-append (format_int thread_id) _ (NoNul-format_int thread_id)
        (omega arith, NoNul-format_int number))

  length-block_name : length (block_name thread_id number) ≤ 27
  unfolding block_name
  length-block_name = omega (
    arith,
    length-append (format_int thread_id) (b'-' ∷ format_int number),
    length-format_int-le 9 thread_id (omega arith) small,
    length-format_int-le 9 number (omega arith) few,
  )

  c_str-block_id : c_str (block_id thread_id number) ≡ block_name thread_id number
  c_str-block_id =
      c_str-snprintf (replicate txb_id_len 0) txb_id_len (block_name thread_id number)
        NoNul-block_name (omega (arith, length-block_name))

  pub block_id-IsPadded : IsPadded txb_id_len (block_id thread_id number)
  block_id-IsPadded =
      snprintf-IsPadded txb_id_len (block_name thread_id number) NoNul-block_name
        (omega (arith, length-block_name))

  scan_literal-block_name :
      scan_literal (codes "BLOCK-") (block_name thread_id number)
      ≡ some (format_int thread_id ++ (b'-' ∷ format_int number))
  unfolding block_name scan_literal
  scan_literal-block_name = refl

  scan_miner_id-block_id : scan_miner_id (block_id thread_id number) ≡ some thread_id
  unfolding scan_miner_id
  scan_miner_id-block_id = rw (
    c_str-block_id,
    scan_literal-block_name,
    scan_int-format_int thread_id (b'-' ∷ format_int number) small refl,
    scan_miner_id,
  )

-- The number that is read in a message on a block of a miner thread is that of the thread, for
-- thread numbers below a million and block numbers below 2^31.
pub miner_id_field-block_id :
    (thread_id number : ℕ)
    → thread_id < 1_000_000
    → number < 2 ^ 31
    → atoi (miner_id_field (block_id thread_id number)) ≡ thread_id
unfolding miner_id_field
miner_id_field-block_id thread_id number few numbered =
    rw (scan_miner_id-block_id thread_id number (omega arith) numbered, miner_id_field)
      (atoi-snprintf (replicate 7 0) 7 thread_id (omega arith)
        (omega (arith, length-format_int-le 5 thread_id few (omega arith))))

-- Without a number in the block id the field reads -1.
pub miner_id_field-none :
    (txb_id : List ℕ)
    → scan_miner_id txb_id ≡ none
    → miner_id_field txb_id ≡ snprintf (replicate 7 0) 7 (codes "-1")
unfolding miner_id_field
miner_id_field-none txb_id e = rw (e, miner_id_field)

pub atoi-minus_one : atoi (snprintf (replicate 7 0) 7 (codes "-1")) ≡ minus_one
unfolding atoi snprintf c_str scan_int scan_digits
atoi-minus_one = refl

-- What the two scans of an id find.
scanned :
    (thread_id number : ℕ)
    → thread_id < 2 ^ 31
    → number < 2 ^ 31
    → (scan_literal (codes "BLOCK-") (c_str (block_id thread_id number))
        ≡ some (format_int thread_id ++ (b'-' ∷ format_int number)))
      × (scan_int (format_int thread_id ++ (b'-' ∷ format_int number))
          ≡ some (thread_id, b'-' ∷ format_int number))
      × (scan_int (format_int number ++ []) ≡ some (number, []))
scanned t k small few = (
  ap (scan_literal (codes "BLOCK-")) (c_str-block_id t k small few)
      ∙ scan_literal-block_name t k small few,
  scan_int-format_int t (b'-' ∷ format_int k) small refl,
  scan_int-format_int k [] few tt,
)

-- The ids of blocks of different threads, or with different numbers, differ.
pub block_id-injective :
    (t k t' k' : ℕ)
    → t < 2 ^ 31
    → k < 2 ^ 31
    → t' < 2 ^ 31
    → k' < 2 ^ 31
    → block_id t k ≡ block_id t' k'
    → (t ≡ t') × (k ≡ k')
block_id-injective t k t' k' ht hk ht' hk' e =
    let (a, b, c) = scanned t k ht hk in
    let (a', b', c') = scanned t' k' ht' hk' in
    let rests = some_inj (sym a ∙ ap (λ x. scan_literal (codes "BLOCK-") (c_str x)) e ∙ a') in
    let pairs = some_inj (sym b ∙ ap scan_int rests ∙ b') in
    let numbers = ap (λ (p : ℕ × List ℕ). drop 1 p.1) pairs in
    (
      ap (λ (p : ℕ × List ℕ). p.0) pairs,
      ap (λ (p : ℕ × List ℕ). p.0) (some_inj (sym c ∙ ap (λ x. scan_int (x ++ [])) numbers ∙ c')),
    )
