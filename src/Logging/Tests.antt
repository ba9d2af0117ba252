-- ===== src/Logging/Tests.antt =====
-- Examples for the log.
use projeto_so.Base.{
  ℕ, ◌≤◌, ◌≡◌, ◌↔◌, refl, true, false, List, [], ◌∷◌, ◌++◌, length, codes, c_str, arith,
}
use projeto_so.Libc.{digits, format_int, snprintf}
use projeto_so.Libc.Find.{starts_with, strcasestr, is_found}
use projeto_so.Logging.{
  Message, red, green, plain, has, color_of, file_line, screen_text, validator_name,
}
use projeto_so.Logging.Words.{Bad, Good, color_of_iff}
use projeto_so.Logging.Section.{
  LogPhase, idle, waiting, filed, Log, log_step, run, call_log, signal, here, there, Reach, stop,
  step,
}
use projeto_so.Logging.Section.Effects.{inside, inside_thread, inside_all}
use projeto_so.Logging.Section.Order.{all_texts, Reach-SameOrder}
use projeto_so.Logging.Section.Silent.{by_handler, this, SomeBlocked-silent}

abbrev failed_open : List ℕ
failed_open = codes "Erro ao abrir o pipe"

color_of_iff_example :
    ((color_of failed_open ≡ red) ↔ Bad (c_str failed_open))
    × ((color_of failed_open ≡ green) ↔ ((¬ Bad (c_str failed_open)) × Good (c_str failed_open)))
    × ((color_of failed_open ≡ plain)
        ↔ ((¬ Bad (c_str failed_open)) × (¬ Good (c_str failed_open))))
color_of_iff_example = color_of_iff failed_open

colours :
    (color_of failed_open ≡ red)
    × (color_of (codes "Pipe aberto com SUCESSO.") ≡ green)
    × (color_of (codes "Miner thread 1 terminou.") ≡ plain)
unfolding color_of has strcasestr starts_with is_found c_str
colours = (refl, refl, refl)

-- "\Erro" in C starts with the escape character.
escaped : color_of (27 ∷ codes "rro ao abrir o pipe") ≡ plain
unfolding color_of has strcasestr starts_with is_found c_str
escaped = refl

name_of_validator : validator_name 1 4242 ≡ codes "VALIDATOR 1 [4242]"
unfolding validator_name format_int digits snprintf c_str
name_of_validator = refl

abbrev hello : Message
hello = record { time_str = codes "t"; process = codes "p"; text = codes "hello" }

abbrev empty_log : Log
empty_log = record { file = []; screen = []; taken = false }

abbrev taken_log : Log
taken_log = record { file = []; screen = []; taken = true }

abbrev filed_log : Log
filed_log = record { file = file_line hello; screen = []; taken = true }

abbrev both_idle : List (List LogPhase)
both_idle = (idle ∷ []) ∷ (idle ∷ []) ∷ []

abbrev one_filed : List (List LogPhase)
one_filed = (filed hello ∷ []) ∷ (waiting hello ∷ []) ∷ []

abbrev interrupted : List (List LogPhase)
interrupted = (waiting hello ∷ filed hello ∷ []) ∷ (waiting hello ∷ []) ∷ []

abbrev twice : List (List LogPhase)
twice = (waiting hello ∷ waiting hello ∷ filed hello ∷ []) ∷ (waiting hello ∷ []) ∷ []

to_file : Reach both_idle empty_log one_filed filed_log
unfolding log_step
to_file =
    step
      (step (step (step stop (here (call_log hello))) (there (here (call_log hello))))
        (here (run refl)))
      (here (run refl))

Reach-SameOrder_example :
    (done : List Message) × (late : List Message) × (length late ≤ 1)
    × (file_line hello ≡ all_texts file_line (done ++ late))
    × ([] ≡ all_texts screen_text done)
unfolding inside_all inside_thread inside
Reach-SameOrder_example = Reach-SameOrder both_idle empty_log refl refl one_filed filed_log to_file

SomeBlocked-silent_example : filed_log ≡ filed_log
unfolding inside_all inside_thread inside
SomeBlocked-silent_example =
    SomeBlocked-silent both_idle interrupted twice empty_log filed_log filed_log refl refl
      (step to_file (here (signal hello))) (this (by_handler hello (omega arith)))
      (step stop (here (signal hello)))
