-- ===== src/Controller/Config/Printed.antt =====
-- parse_config of src/Controller.c on the text that %d prints for its values.
use projeto_so.Base.{
  ℕ, zero, suc, ◌/◌, ◌^◌, ◌≤◌, ◌<◌, ◌≡◌, refl, sym, ap, ◌∙◌, inl, inr, true, false, List, [], ◌∷◌,
  ◌++◌, some, arith, Bool-cases, ltb, leb, lt→ltb, ◌==◌, length, drop, c_str, codes,
}
use mathlib.Core.List.{append-nil}
use projeto_so.Libc.{
  isdigit, isspace, skip_spaces, scan_literal, scan_int, digits, format_int, atoi,
}
use projeto_so.Libc.Decimal.{scan_int-format_int, digits-first}
use projeto_so.Libc.Names.{length-format_int-le}
use projeto_so.Controller.Config.{
  is_positive_integer, scan_word, value, check_word, read_field, values, with_value, read_fields,
  field_names, parse_config,
}

abbrev pub AllDigits : List ℕ → Type 0
AllDigits [] = Unit {0}
AllDigits (c ∷ cs) = (isdigit c ≡ true) × AllDigits cs

AllDigits-append : (a b : List ℕ) → AllDigits a → AllDigits b → AllDigits (a ++ b)
AllDigits-append [] b h k = k
AllDigits-append (c ∷ a) b h k = (h.0, AllDigits-append a b h.1 k)

AllDigits-digits : (fuel n : ℕ) → AllDigits (digits fuel n)
unfolding digits
AllDigits-digits zero n = tt
AllDigits-digits (suc fuel) n = elim (Bool-cases (ltb n 10)) [
  | inl one ↦ rw one (ground arith, tt)
  | inr more ↦ rw more (
      AllDigits-append (digits fuel (n / 10)) _ (AllDigits-digits fuel (n / 10)) (ground arith, tt))
]

AllDigits-format_int : (n : ℕ) → n < 2 ^ 31 → AllDigits (format_int n)
unfolding format_int
AllDigits-format_int n h = rw (lt→ltb n (2 ^ 31) h) (AllDigits-digits 10 n)

-- The text of a number starts with a digit.
format_int-first :
    (n : ℕ) → n < 2 ^ 31 → (c : ℕ) × (cs : List ℕ) × (format_int n ≡ c ∷ cs) × (isdigit c ≡ true)
unfolding format_int
format_int-first n h =
    let (c, cs, e, digit) = digits-first 9 n [] in
    rw (lt→ltb n (2 ^ 31) h) (c, cs, sym (append-nil (digits 10 n)) ∙ e, digit)

scan_literal-append : (l r : List ℕ) → scan_literal l (l ++ r) ≡ some r
unfolding scan_literal
scan_literal-append [] r = refl
scan_literal-append (c ∷ l) r = ground (arith, scan_literal-append l r)

scan_word-digits : (w rest : List ℕ) → AllDigits w → scan_word (w ++ 10 ∷ rest) ≡ (w, 10 ∷ rest)
unfolding scan_word
scan_word-digits [] rest h = refl
scan_word-digits (c ∷ w) rest h =
    let space : isspace c ≡ false = ground (arith, h.0) in rw (space, scan_word-digits w rest h.1)

is_positive_integer-digits : (w : List ℕ) → AllDigits w → is_positive_integer w ≡ true
unfolding is_positive_integer
is_positive_integer-digits [] h = refl
is_positive_integer-digits (c ∷ w) h = rw h.0 (is_positive_integer-digits w h.1)

c_str-digits : (w : List ℕ) → AllDigits w → c_str w ≡ w
unfolding c_str
c_str-digits [] h = refl
c_str-digits (c ∷ w) h = ground (arith, h.0, c_str-digits w h.1)

skip_spaces-digit : (c : ℕ) (cs : List ℕ) → isdigit c ≡ true → skip_spaces (c ∷ cs) ≡ c ∷ cs
unfolding skip_spaces
skip_spaces-digit c cs h = let space : isspace c ≡ false = ground arith in rw space

atoi-format_int : (n : ℕ) → n < 2 ^ 31 → atoi (format_int n) ≡ n
unfolding atoi
atoi-format_int n small =
    let scanned =
      ap scan_int (sym (append-nil (format_int n))) ∙ scan_int-format_int n [] small tt in
    rw (c_str-digits (format_int n) (AllDigits-format_int n small), scanned, atoi)

check_word-format_int :
    (n : ℕ) (rest : List ℕ)
    → n < 2 ^ 31
    → check_word (format_int n) rest ≡ value n (skip_spaces rest)
unfolding check_word
check_word-format_int n rest small =
    let (c, cs, first, digit) = format_int-first n small in
    let long : 1 ≤ length (format_int n) = omega (arith, ap length first) in
    let short = length-format_int-le 9 n (omega arith) small in
    let some_word : (length (format_int n) == 0) ≡ false = ground arith in
    let fits : leb 128 (length (format_int n)) ≡ false = ground arith in
    let all = AllDigits-format_int n small in
    rw
      (
        some_word,
        fits,
        c_str-digits (format_int n) all,
        is_positive_integer-digits (format_int n) all,
      )
      (ap (λ k. value k (skip_spaces rest)) (atoi-format_int n small))

skip_spaces-format_int :
    (n : ℕ) (rest : List ℕ) → n < 2 ^ 31 → skip_spaces (format_int n ++ rest) ≡ format_int n ++ rest
skip_spaces-format_int n rest small =
    let (c, cs, first, digit) = format_int-first n small in
    ap (λ w. skip_spaces (w ++ rest)) first
    ∙ skip_spaces-digit c (cs ++ rest) digit
    ∙ sym (ap (λ w. w ++ rest) first)

read_field-printed :
    (name : List ℕ) (n : ℕ) (rest : List ℕ)
    → n < 2 ^ 31
    → read_field name (name ++ (format_int n ++ 10 ∷ rest)) ≡ value n (skip_spaces (10 ∷ rest))
unfolding read_field
read_field-printed name n rest small =
    rw
      (
        scan_literal-append name (format_int n ++ 10 ∷ rest),
        skip_spaces-format_int n (10 ∷ rest) small,
        scan_word-digits (format_int n) rest (AllDigits-format_int n small),
        read_field,
      )
      (check_word-format_int n (10 ∷ rest) small)

read_fields-printed :
    (name : List ℕ) (names : List (List ℕ)) (n : ℕ) (rest : List ℕ)
    → n < 2 ^ 31
    → read_fields (name ∷ names) (name ++ (format_int n ++ 10 ∷ rest))
      ≡ with_value n (read_fields names (skip_spaces (10 ∷ rest)))
unfolding read_fields
read_fields-printed name names n rest small = rw (read_field-printed name n rest small, read_fields)

-- The names from the `k`th on.
abbrev names : ℕ → List (List ℕ)
names k = drop k field_names

-- The text of a configuration file with these values.
abbrev pub print_config : ℕ → ℕ → ℕ → ℕ → List ℕ
print_config num_miners pool_size per_block blockchain_blocks =
    codes "NUM_MINERS="
    ++ (format_int num_miners
        ++ 10
          ∷ (codes "TRANSACTION_POOL_SIZE="
              ++ (format_int pool_size
                  ++ 10
                    ∷ (codes "TRANSACTIONS_PER_BLOCK="
                        ++ (format_int per_block
                            ++ 10
                              ∷ (codes "BLOCKCHAIN_BLOCKS="
                                  ++ (format_int blockchain_blocks ++ 10 ∷ [])))))))

-- From the text of a configuration with values below 2^31 the controller reads these values.
pub parse_config-printed :
    (num_miners pool_size per_block blockchain_blocks : ℕ)
    → num_miners < 2 ^ 31
    → pool_size < 2 ^ 31
    → per_block < 2 ^ 31
    → blockchain_blocks < 2 ^ 31
    → parse_config (print_config num_miners pool_size per_block blockchain_blocks)
      ≡ values (num_miners ∷ pool_size ∷ per_block ∷ blockchain_blocks ∷ [])
unfolding parse_config skip_spaces read_fields with_value
parse_config-printed a b c d ha hb hc hd =
    let blocks = codes "BLOCKCHAIN_BLOCKS=" ++ (format_int d ++ 10 ∷ []) in
    let per_block = codes "TRANSACTIONS_PER_BLOCK=" ++ (format_int c ++ 10 ∷ blocks) in
    let pool = codes "TRANSACTION_POOL_SIZE=" ++ (format_int b ++ 10 ∷ per_block) in
    read_fields-printed (codes "NUM_MINERS=") (names 1) a pool ha
    ∙ ap (with_value a) (
        read_fields-printed (codes "TRANSACTION_POOL_SIZE=") (names 2) b per_block hb
        ∙ ap (with_value b) (
            read_fields-printed (codes "TRANSACTIONS_PER_BLOCK=") (names 3) c blocks hc
            ∙ ap (with_value c)
                (read_fields-printed (codes "BLOCKCHAIN_BLOCKS=") (names 4) d [] hd)))
