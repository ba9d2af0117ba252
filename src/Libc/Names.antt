-- ===== src/Libc/Names.antt =====
-- Texts without NULs in buffers of NULs, and the digits of numbers in them.
use projeto_so.Base.{
  ℕ, zero, suc, ◌+◌, ◌-◌, ◌/◌, ◌%◌, ◌≤◌, ◌<◌, ◌^◌, ◌≡◌, refl, sym, ap, ◌∙◌, inl, inr, true, List,
  [], ◌∷◌, ◌++◌, arith, Bool-cases, ltb, lt→ltb, length, length-append, take, drop, c_str,
}
use mathlib.Core.List.{append-nil}
use native.Mathlib.Nat.{pow-suc}
use projeto_so.Libc.{digits, format_int, scan_int, snprintf, atoi}
use projeto_so.Libc.Copy.{IsPadded, zeros, drop-replicate}
use projeto_so.Libc.Decimal.{scan_int-format_int}

-- No NUL among these bytes.
abbrev pub NoNul : List ℕ → Type 0
NoNul [] = Unit {0}
NoNul (c ∷ cs) = (0 < c) × NoNul cs

pub NoNul-append : (a b : List ℕ) → NoNul a → NoNul b → NoNul (a ++ b)
NoNul-append [] b h k = k
NoNul-append (c ∷ a) b h k = (h.0, NoNul-append a b h.1 k)

NoNul-digits : (fuel n : ℕ) → NoNul (digits fuel n)
unfolding digits
NoNul-digits zero n = tt
NoNul-digits (suc fuel) n = elim (Bool-cases (ltb n 10)) [
  | inl one ↦ rw one (omega arith)
  | inr more ↦
      rw more (NoNul-append (digits fuel (n / 10)) _ (NoNul-digits fuel (n / 10)) (omega arith))
]

pub NoNul-format_int : (n : ℕ) → NoNul (format_int n)
unfolding format_int
NoNul-format_int n = elim (Bool-cases (ltb n (2 ^ 31))) [
  | inl small ↦ rw small (NoNul-digits 10 n)
  | inr large ↦ rw large (omega arith, NoNul-digits 10 (2 ^ 32 - n))
]

length-digits-le : (fuel k n : ℕ) → n < 10 ^ suc k → length (digits fuel n) ≤ suc k
unfolding digits
length-digits-le zero k n h = omega arith
length-digits-le (suc fuel) zero n h =
    let one : ltb n 10 ≡ true = lt→ltb n 10 (omega arith) in rw one (omega arith)
length-digits-le (suc fuel) (suc k) n h = elim (Bool-cases (ltb n 10)) [
  | inl one ↦ rw one (omega arith)
  | inr more ↦ rw more (
      omega (
        arith,
        length-append (digits fuel (n / 10)) ((b'0' + n % 10) ∷ []),
        length-digits-le fuel k (n / 10) (omega (arith, pow-suc 10 (suc k))),
      ))
]

pub length-format_int-le : (k n : ℕ) → n < 10 ^ suc k → n < 2 ^ 31 → length (format_int n) ≤ suc k
unfolding format_int
length-format_int-le k n h small = rw (lt→ltb n (2 ^ 31) small) (length-digits-le 10 k n h)

take-le : (n : ℕ) (cs : List ℕ) → length cs ≤ n → take n cs ≡ cs
take-le zero [] h = refl
take-le zero (c ∷ cs) h = absurd (omega arith)
take-le (suc n) [] h = refl
take-le (suc n) (c ∷ cs) h = ap (◌∷◌ c) (take-le n cs (omega arith))

c_str-text : (text rest : List ℕ) → NoNul text → c_str (text ++ (0 ∷ rest)) ≡ text
unfolding c_str
c_str-text [] rest h = refl
c_str-text (zero ∷ cs) rest h = elim h.0 [ ]
c_str-text (suc c ∷ cs) rest h = ap (◌∷◌ (suc c)) (c_str-text cs rest h.1)

-- A text that fits, with its NUL, is printed whole.
pub c_str-snprintf :
    (old : List ℕ) (n : ℕ) (text : List ℕ)
    → NoNul text
    → length text < n
    → c_str (snprintf old n text) ≡ text
unfolding snprintf
c_str-snprintf old n text clean fits =
    rw (take-le (n - 1) text (omega arith)) (c_str-text text (drop (length text + 1) old) clean)

pub snprintf-IsPadded :
    (n : ℕ) (text : List ℕ) → NoNul text → length text < n → IsPadded n (snprintf (zeros n) n text)
unfolding snprintf
snprintf-IsPadded n text clean fits =
    let whole = take-le (n - 1) text (omega arith) in
    let e : suc (n - (length text + 1)) ≡ n - length text = omega arith in
    rw whole (record {
      room = rw (c_str-text text (drop (length text + 1) (zeros n)) clean) fits;
      pad =
          rw (c_str-text text (drop (length text + 1) (zeros n)) clean)
            (ap (λ t. text ++ t) (ap (◌∷◌ 0) (drop-replicate (length text + 1) n) ∙ ap zeros e));
    })

-- A number that was printed into a buffer with room for it is read back.
pub atoi-snprintf :
    (old : List ℕ) (size n : ℕ)
    → n < 2 ^ 31
    → length (format_int n) < size
    → atoi (snprintf old size (format_int n)) ≡ n
unfolding atoi
atoi-snprintf old size n small fits =
    let text = c_str-snprintf old size (format_int n) (NoNul-format_int n) fits in
    let value = ap scan_int (sym (append-nil (format_int n))) ∙ scan_int-format_int n [] small tt in
    rw (text, value, atoi)
