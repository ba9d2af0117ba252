-- ===== src/Logging.antt =====
-- log_info of src/Controller.c, src/Miner.c, src/Validator.c and src/Statistics.c, which is the same in
-- each: the text that it writes to the file and to the terminal, and its section under the log's semaphore.
pub mod Words
pub mod Section
pub mod Tests
use projeto_so.Base.{
  ℕ, Bool, true, false, ◌||◌, List, [], ◌∷◌, ◌++◌, Option, none, some, codes, c_str, replicate,
  if◌then◌else◌,
}
use projeto_so.Libc.{format_int, snprintf}
use projeto_so.Libc.Find.{strcasestr, is_found}

-- A message with the time as strftime prints it, and TIPO_PROCESSO.
pub record Message : Type 0 where
  pub time_str : List ℕ
  pub process : List ℕ
  pub text : List ℕ

pub data Colour : Type 0 where
  plain : Colour
  red : Colour
  green : Colour

-- An escape sequence.
unfoldable pub color_code : Colour → List ℕ
color_code plain = 27 ∷ codes "[0m"
color_code red = 27 ∷ codes "[31m"
color_code green = 27 ∷ codes "[32m"

-- "execução" in UTF-8.
abbrev pub execucao : List ℕ
execucao = codes "execu" ++ 195 ∷ 167 ∷ 195 ∷ 163 ∷ codes "o"

unfoldable pub has : List ℕ → List ℕ → Bool
has text needle = is_found (strcasestr text needle)

unfoldable pub color_of : List ℕ → Colour
color_of text =
    if has text (codes "erro") || has text (codes "rejeitado")
    then red
    else if has text (codes "sucesso") || (has text execucao || has text (codes "iniciado"))
    then green
    else plain

unfoldable pub file_line : Message → List ℕ
file_line m = m.time_str ++ codes " " ++ m.process ++ codes " > " ++ c_str m.text ++ codes "\n"

unfoldable pub screen_text : Message → List ℕ
screen_text m =
    codes "\n"
    ++ (27 ∷ codes "[33m")
    ++ m.time_str
    ++ codes " "
    ++ m.process
    ++ codes " > "
    ++ (27 ∷ codes "[0m")
    ++ color_code (color_of m.text)
    ++ c_str m.text
    ++ (27 ∷ codes "[0m")

-- The names that the processes write into their buffer of 32 bytes.
abbrev pub name_buffer : List ℕ
name_buffer = replicate 32 0

unfoldable pub miner_name : ℕ → List ℕ
miner_name pid = c_str (snprintf name_buffer 32 (codes "MINER [" ++ format_int pid ++ codes "]"))

unfoldable pub validator_name : ℕ → ℕ → List ℕ
validator_name num pid = c_str (
    snprintf name_buffer 32
      (codes "VALIDATOR " ++ format_int num ++ codes " [" ++ format_int pid ++ codes "]"))

unfoldable pub statistics_name : ℕ → List ℕ
statistics_name pid =
    c_str (snprintf name_buffer 32 (codes "STATISTICS [" ++ format_int pid ++ codes "]"))
