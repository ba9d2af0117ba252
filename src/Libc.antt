-- ===== src/Libc.antt =====
-- The functions of the C library that the source calls on text, with the behaviour that the source
-- relies on: strcpy, strncpy, snprintf, atoi and the %d and %s of the scanf family.
pub mod Copy
pub mod Decimal
pub mod Find
pub mod Names
use projeto_so.Base.{
  ℕ, zero, suc, ◌+◌, ◌-◌, ◌*◌, ◌/◌, ◌%◌, ◌^◌, ◌≡◌, refl, Bool, true, false, ◌&&◌, ◌||◌, List, [],
  ◌∷◌, ◌++◌, Option, none, some, ltb, leb, ◌==◌, if◌then◌else◌, length, take, drop, replicate,
  c_str, u32, codes,
}

-- strcpy (buf, src): the rest of the buffer stays as it was.
unfoldable pub strcpy : List ℕ → List ℕ → List ℕ
strcpy buf src = c_str src ++ (0 ∷ drop (length (c_str src) + 1) buf)

-- strncpy (buf, src, n) into a buffer of n bytes: short strings are padded with NULs.
unfoldable pub strncpy : ℕ → List ℕ → List ℕ
strncpy n src = let s = c_str (take n src) in s ++ replicate (n - length s) 0

-- snprintf (buf, n, ...) of the text: cut to n - 1 bytes, with a NUL behind it.
unfoldable pub snprintf : List ℕ → ℕ → List ℕ → List ℕ
snprintf buf n text = let s = take (n - 1) text in s ++ (0 ∷ drop (length s + 1) buf)

-- The decimal digits of a number of at most `fuel` digits.
unfoldable pub digits : ℕ → ℕ → List ℕ
digits zero n = []
digits (suc fuel) n =
    let more = digits fuel (n / 10) ++ (b'0' + n % 10) ∷ [] in
    if ltb n 10 then (b'0' + n) ∷ [] else more

-- "%d" of an `int`.
unfoldable pub format_int : ℕ → List ℕ
unfolding digits
format_int n = if ltb n (2 ^ 31) then digits 10 n else b'-' ∷ digits 10 (2 ^ 32 - n)

abbrev pub isdigit : ℕ → Bool
isdigit c = leb b'0' c && leb c b'9'

abbrev pub isspace : ℕ → Bool
isspace c = c == 32 || (leb 9 c && leb c 13)

-- The number that a run of digits continues, and what follows the run.
unfoldable pub scan_digits : ℕ → List ℕ → ℕ × List ℕ
scan_digits acc [] = (acc, [])
scan_digits acc (c ∷ cs) =
    let more = scan_digits (acc * 10 + (c - b'0')) cs in if isdigit c then more else (acc, c ∷ cs)

unfoldable pub skip_spaces : List ℕ → List ℕ
skip_spaces [] = []
skip_spaces (c ∷ cs) = if isspace c then skip_spaces cs else c ∷ cs

starts_digit : List ℕ → Bool
starts_digit [] = false
starts_digit (c ∷ cs) = isdigit c

-- The conversion of strtol saturates at LONG_MIN and LONG_MAX; the cast to `int` keeps 32 bits.
abbrev pub long_to_int : Bool → ℕ → ℕ
long_to_int negative n =
    if negative
    then (if leb (2 ^ 63) n then 0 else u32 (2 ^ 64 - n))
    else (if leb (2 ^ 63) n then 2 ^ 32 - 1 else u32 n)

scan_unsigned : Bool → List ℕ → Option (ℕ × List ℕ)
unfolding starts_digit
scan_unsigned negative cs =
    let scanned = scan_digits 0 cs in
    if starts_digit cs then some (long_to_int negative scanned.0, scanned.1) else none

scan_sign : List ℕ → Option (ℕ × List ℕ)
unfolding scan_unsigned
scan_sign [] = none
scan_sign (c ∷ cs) =
    if c == b'-'
    then scan_unsigned true cs
    else if c == b'+'
    then scan_unsigned false cs
    else scan_unsigned false (c ∷ cs)

-- %d of the scanf family: spaces, a sign, at least one digit.
unfoldable pub scan_int : List ℕ → Option (ℕ × List ℕ)
unfolding scan_sign skip_spaces
scan_int cs = scan_sign (skip_spaces cs)

unfoldable pub atoi : List ℕ → ℕ
unfolding scan_int
atoi cs = elim (scan_int (c_str cs)) [ none ↦ 0 | some (n, rest) ↦ n ]

-- A literal of a scanf format that holds no space: it must stand there byte for byte.
unfoldable pub scan_literal : List ℕ → List ℕ → Option (List ℕ)
scan_literal [] cs = some cs
scan_literal (l ∷ ls) [] = none
scan_literal (l ∷ ls) (c ∷ cs) = if l == c then scan_literal ls cs else none

scan_number :
    (atoi (codes " -12x") ≡ 2 ^ 32 - 12) × (atoi (codes "99999999999999999999") ≡ 2 ^ 32 - 1)
unfolding atoi c_str scan_digits
scan_number = (refl, refl)
