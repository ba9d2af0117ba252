-- ===== src/Validator/Blocks/Hashes.antt =====
-- The hash texts in the ledger's buffers: 64 digits and a NUL.
use projeto_so.Base.{
  ℕ, zero, suc, ◌+◌, ◌-◌, ◌/◌, ◌%◌, ◌≤◌, ◌<◌, ◌≡◌, refl, ap, ◌∙◌, true, List, [], ◌∷◌, ◌++◌, arith,
  length, drop, replicate, c_str, strn_eq, bytes_eq_refl, take,
}
use projeto_so.Libc.{strcpy}
use projeto_so.Libc.Copy.{IsPadded}
use projeto_so.Chain.{TransactionBlock, hash_size}
use projeto_so.Pow.{hex_digit, hex, serialize_block, compute_sha256}
use projeto_so.Pow.Hash.{IsDigest, length-hex, hex_digit_pos}

c_str-cons : (c : ℕ) (cs : List ℕ) → 0 < c → c_str (c ∷ cs) ≡ c ∷ c_str cs
unfolding c_str
c_str-cons zero cs h = absurd (omega arith)
c_str-cons (suc c) cs h = refl

c_str-hex : (bs : List ℕ) → c_str (hex bs ++ 0 ∷ []) ≡ hex bs
unfolding hex c_str
c_str-hex [] = refl
c_str-hex (b ∷ bs) =
    let hi = hex_digit (b / 16) in
    let lo = hex_digit (b % 16) in
    c_str-cons hi (lo ∷ (hex bs ++ 0 ∷ [])) (hex_digit_pos (b / 16))
    ∙ ap (◌∷◌ hi)
        (c_str-cons lo (hex bs ++ 0 ∷ []) (hex_digit_pos (b % 16)) ∙ ap (◌∷◌ lo) (c_str-hex bs))

drop-all : (k : ℕ) (cs : List ℕ) → length cs ≤ k → drop k cs ≡ []
drop-all zero [] h = refl
drop-all zero (c ∷ cs) h = absurd (omega arith)
drop-all (suc k) [] h = refl
drop-all (suc k) (c ∷ cs) h = drop-all k cs (omega arith)

module _ (sha : List ℕ → List ℕ) (digest : IsDigest sha) (n : ℕ) (b : TransactionBlock) where
  abbrev text : List ℕ
  text = hex (sha (serialize_block n b))

  length-text : length text ≡ 64
  length-text =
      omega (arith, length-hex (sha (serialize_block n b)), digest.size (serialize_block n b))

  c_str-compute_sha256 : c_str (compute_sha256 sha n b) ≡ text
  unfolding compute_sha256
  c_str-compute_sha256 = c_str-hex (sha (serialize_block n b))

  pub compute_sha256-IsPadded : IsPadded hash_size (compute_sha256 sha n b)
  unfolding compute_sha256
  compute_sha256-IsPadded = record {
    room = rw (c_str-hex (sha (serialize_block n b))) (omega (arith, length-text));
    pad = rw (c_str-hex (sha (serialize_block n b))) (
        ap (◌++◌ text) (
          let e : 1 ≡ hash_size - length text = omega (arith, length-text) in
          ap (λ k. replicate k 0) e));
  }

  -- Over the hash of another block the copy is exact.
  pub strcpy-compute_sha256 :
      (old : List ℕ)
      → length old ≡ hash_size
      → strcpy old (compute_sha256 sha n b) ≡ compute_sha256 sha n b
  unfolding strcpy compute_sha256
  strcpy-compute_sha256 old h =
      rw (c_str-hex (sha (serialize_block n b)))
        (ap (λ t. text ++ 0 ∷ t) (drop-all (length text + 1) old (omega (arith, length-text, h))))

pub strn_eq_refl : (n : ℕ) (cs : List ℕ) → strn_eq n cs cs ≡ true
unfolding strn_eq
strn_eq_refl n cs = bytes_eq_refl (c_str (take n cs))
