-- ===== src/Libc/Decimal.antt =====
-- The digits of %d, and what the scans of a number make of them.
use projeto_so.Base.{
  ℕ, zero, suc, ◌+◌, ◌-◌, ◌*◌, ◌/◌, ◌%◌, ◌^◌, ◌<◌, ◌≡◌, refl, sym, ap, ◌∙◌, inl, inr, true, false,
  List, [], ◌∷◌, ◌++◌, some, arith, Bool-cases, ltb, ltb→lt, lt→ltb,
}
use mathlib.Core.List.{append_assoc}
use native.Mathlib.Nat.{pow-suc}
use projeto_so.Libc.{digits, format_int, isdigit, long_to_int, scan_digits, scan_int}

-- A run of digits ends here.
abbrev pub Ends : List ℕ → Type 0
Ends [] = Unit {0}
Ends (c ∷ cs) = isdigit c ≡ false

-- The number goes on by the digit `d`.
scan_digits-digit :
    (acc d : ℕ) (rest : List ℕ)
    → d < 10
    → scan_digits acc ((b'0' + d) ∷ rest) ≡ scan_digits (acc * 10 + d) rest
unfolding scan_digits
scan_digits-digit acc d rest h =
    let digit : isdigit (b'0' + d) ≡ true = ground arith in
    let value : acc * 10 + (b'0' + d - b'0') ≡ acc * 10 + d = omega arith in rw (digit, value)

scan_digits-last :
    (n : ℕ) (rest : List ℕ) → n < 10 → scan_digits 0 ((b'0' + n) ∷ rest) ≡ scan_digits n rest
scan_digits-last n rest h =
    let e : 0 * 10 + n ≡ n = omega arith in
    scan_digits-digit 0 n rest h ∙ ap (λ k. scan_digits k rest) e

-- What the digits of a number continue is the number.
scan_digits-digits :
    (fuel n : ℕ) (rest : List ℕ)
    → n < 10 ^ suc fuel
    → scan_digits 0 (digits (suc fuel) n ++ rest) ≡ scan_digits n rest
unfolding digits
scan_digits-digits zero n rest h =
    let one : ltb n 10 ≡ true = lt→ltb n 10 (omega arith) in
    rw one (scan_digits-last n rest (omega arith))
scan_digits-digits (suc fuel) n rest h = elim (Bool-cases (ltb n 10)) [
  | inl one ↦ rw one (scan_digits-last n rest (ltb→lt n 10 one))
  | inr more ↦
      let e : n / 10 * 10 + n % 10 ≡ n = omega arith in
      rw more (
        ap (scan_digits 0) (append_assoc (digits (suc fuel) (n / 10)) ((b'0' + n % 10) ∷ []) rest)
        ∙ scan_digits-digits fuel (n / 10) ((b'0' + n % 10) ∷ rest)
            (omega (arith, pow-suc 10 (suc fuel)))
        ∙ scan_digits-digit (n / 10) (n % 10) rest (omega arith)
        ∙ ap (λ k. scan_digits k rest) e)
]

scan_digits-Ends : (n : ℕ) (rest : List ℕ) → Ends rest → scan_digits n rest ≡ (n, rest)
unfolding scan_digits
scan_digits-Ends n [] h = refl
scan_digits-Ends n (c ∷ cs) h = rw h

-- The first byte of a number's digits is a digit.
pub digits-first :
    (fuel n : ℕ) (rest : List ℕ)
    → (c : ℕ) × (cs : List ℕ) × (digits (suc fuel) n ++ rest ≡ c ∷ cs) × (isdigit c ≡ true)
unfolding digits
digits-first zero n rest = elim (Bool-cases (ltb n 10)) [
  | inl one ↦ rw one (_, _, refl, ground arith)
  | inr more ↦ rw more (_, _, refl, ground arith)
]
digits-first (suc fuel) n rest = elim (Bool-cases (ltb n 10)) [
  | inl one ↦ rw one (_, _, refl, ground arith)
  | inr more ↦
      rw (more, append_assoc (digits (suc fuel) (n / 10)) ((b'0' + n % 10) ∷ []) rest)
        (digits-first fuel (n / 10) ((b'0' + n % 10) ∷ rest))
]

scan_int_at :
    (c : ℕ) (cs : List ℕ)
    → isdigit c ≡ true
    → scan_int (c ∷ cs)
      ≡ some (long_to_int false (scan_digits 0 (c ∷ cs)).0, (scan_digits 0 (c ∷ cs)).1)
unfolding scan_int
scan_int_at c cs h = ground arith

-- A number below 2 ^ 31 that %d printed is read back by %d, and what follows it is left.
pub scan_int-format_int :
    (n : ℕ) (rest : List ℕ)
    → n < 2 ^ 31
    → Ends rest
    → scan_int (format_int n ++ rest) ≡ some (n, rest)
unfolding format_int
scan_int-format_int n rest h e = rw (lt→ltb n (2 ^ 31) h) (whole (digits-first 9 n rest))
  where
    value : scan_digits 0 (digits 10 n ++ rest) ≡ (n, rest)
    value = scan_digits-digits 9 n rest (omega arith) ∙ scan_digits-Ends n rest e

    small : long_to_int false n ≡ n
    small = ground arith

    whole :
        ((c : ℕ) × (cs : List ℕ) × (digits 10 n ++ rest ≡ c ∷ cs) × (isdigit c ≡ true))
        → scan_int (digits 10 n ++ rest) ≡ some (n, rest)
    whole (c, cs, split, first) =
        ap scan_int split
        ∙ scan_int_at c cs first
        ∙ ap (λ (p : ℕ × List ℕ). some (long_to_int false p.0, p.1))
            (ap (scan_digits 0) (sym split) ∙ value)
        ∙ ap (λ k. some (k, rest)) small
