-- ===== src/Controller/Config.antt =====
-- The configuration file of src/Controller.c: parse_config and the checks of main on its values.
pub mod Printed
use projeto_so.Base.{
  ℕ, zero, suc, ◌+◌, ◌-◌, ◌^◌, Bool, true, false, ◌&&◌, ◌||◌, not, List, [], ◌∷◌, ◌++◌, Option,
  none, some, ltb, leb, ltb_int, ◌==◌, if◌then◌else◌, length, c_str, codes,
}
use projeto_so.Libc.{isdigit, isspace, skip_spaces, scan_literal, atoi}

unfoldable pub is_positive_integer : List ℕ → Bool
is_positive_integer [] = true
is_positive_integer (c ∷ cs) = if isdigit c then is_positive_integer cs else false

-- The word in front of the first space, and the rest: what %s takes behind the spaces it skips.
unfoldable pub scan_word : List ℕ → List ℕ × List ℕ
scan_word [] = ([], [])
scan_word (c ∷ cs) =
    let (word, rest) = scan_word cs in if isspace c then ([], c ∷ cs) else (c ∷ word, rest)

-- A field: invalid, with a word that does not fit the buffer of 128 bytes, or its value and the text
-- behind it.
pub data Field : Type 0 where
  invalid : Field
  overflow : Field
  value : ℕ → List ℕ → Field

unfoldable pub check_word : List ℕ → List ℕ → Field
check_word word rest =
    if length word == 0
    then invalid
    else if leb 128 (length word)
    then overflow
    else if is_positive_integer (c_str word)
    then value (atoi word) (skip_spaces rest)
    else invalid

-- fscanf (file, "NAME=%s\n", buffer) with the test of what it read.
unfoldable pub read_field : List ℕ → List ℕ → Field
read_field name text = elim (scan_literal name text) [
  | none ↦ invalid
  | some behind ↦ let (word, rest) = scan_word (skip_spaces behind) in check_word word rest
]

-- The values of the fields, in their order.
pub data Fields : Type 0 where
  bad_field : Fields
  overflowed : Fields
  values : List ℕ → Fields

unfoldable pub with_value : ℕ → Fields → Fields
with_value v bad_field = bad_field
with_value v overflowed = overflowed
with_value v (values vs) = values (v ∷ vs)

unfoldable pub read_fields : List (List ℕ) → List ℕ → Fields
read_fields [] text = values []
read_fields (name ∷ names) text = elim (read_field name text) [
  | invalid ↦ bad_field
  | overflow ↦ overflowed
  | value v rest ↦ with_value v (read_fields names rest)
]

abbrev pub field_names : List (List ℕ)
field_names =
    codes "NUM_MINERS="
    ∷ codes "TRANSACTION_POOL_SIZE="
    ∷ codes "TRANSACTIONS_PER_BLOCK="
    ∷ codes "BLOCKCHAIN_BLOCKS="
    ∷ []

unfoldable pub parse_config : List ℕ → Fields
parse_config text = read_fields field_names text

-- The conversion of an `int` to the size_t TRANSACTIONS_PER_BLOCK.
unfoldable pub int_to_size : ℕ → ℕ
int_to_size x = if ltb x (2 ^ 31) then x else x + (2 ^ 64 - 2 ^ 32)

-- The checks of main on the four values.
unfoldable pub accepts_config : ℕ → ℕ → ℕ → ℕ → Bool
accepts_config num_miners pool_size per_block blockchain_blocks =
    not (ltb_int blockchain_blocks 2)
    && (not (ltb_int num_miners 1)
        && (not (ltb_int pool_size 1) && not (ltb (int_to_size per_block) 1)))
