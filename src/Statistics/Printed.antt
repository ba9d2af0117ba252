-- ===== src/Statistics/Printed.antt =====
-- src/Statistics.c: printStatistics, as the messages that it logs, and the handlers that call it. What
-- "%.2f" prints of a total over a count is the parameter `format_mean`.
pub mod Counted
pub mod Run
use projeto_so.Base.{
  ℕ, zero, suc, ◌+◌, ◌*◌, ◌^◌, List, [], ◌∷◌, ◌++◌, Option, none, some, get_elem?, u64, ltb,
  if◌then◌else◌, codes, map,
}
use mathlib.Core.Option.{bind}
use projeto_so.Libc.{format_int}
use projeto_so.Controller.Config.{int_to_size}
use projeto_so.Controller.Cleanup.{Call, log}
use projeto_so.Workers.{Worker, statistics_cleanup}
use projeto_so.Statistics.{Statistics}

-- "válidos", "inválidos" and the other words that are not ASCII, in UTF-8.
abbrev validos : List ℕ
validos = codes "v" ++ 195 ∷ 161 ∷ codes "lidos: "

abbrev invalidos : List ℕ
invalidos = codes "inv" ++ 195 ∷ 161 ∷ codes "lidos: "

unfoldable pub heading : List ℕ
heading = codes "Estat" ++ 195 ∷ 173 ∷ codes "sticas:"

unfoldable pub processed_line : ℕ → List ℕ
processed_line total = codes "Total de blocos processados: " ++ format_int total

unfoldable pub valid_line : ℕ → List ℕ
valid_line blocks = codes "Total de blocos " ++ validos ++ format_int blocks

unfoldable pub mean_line : List ℕ → List ℕ
mean_line mean =
    codes "Tempo m"
    ++ (195 ∷ 169 ∷ codes "dio para aprova")
    ++ (195 ∷ 167 ∷ 195 ∷ 163 ∷ codes "o de uma transa")
    ++ (195 ∷ 167 ∷ 195 ∷ 163 ∷ codes "o: ")
    ++ mean
    ++ codes " segundos"

unfoldable pub miner_line : ℕ → ℕ → ℕ → ℕ → List ℕ
miner_line i valid invalid credits =
    codes "Miner "
    ++ format_int (i + 1)
    ++ codes ": Blocos "
    ++ validos
    ++ format_int valid
    ++ codes ", Blocos "
    ++ invalidos
    ++ format_int invalid
    ++ codes ", Cr"
    ++ (195 ∷ 169 ∷ codes "ditos: ")
    ++ format_int credits

module _ {Double : Type 0} where
  -- `none` is an access out of bounds.
  unfoldable pub print_miner : Statistics Double → ℕ → Option (List ℕ)
  print_miner s i = bind (get_elem? s.miner_valid_blocks i) (λ valid.
      bind (get_elem? s.miner_invalid_blocks i) (λ invalid.
        bind (get_elem? s.miner_credits i) (λ credits. some (miner_line i valid invalid credits))))

  -- The loop over the miners from the index `i` on, with the number of those that are left.
  unfoldable pub print_miners : Statistics Double → ℕ → ℕ → Option (List (List ℕ))
  print_miners s i zero = some []
  print_miners s i (suc left) =
      bind (print_miner s i)
        (λ line. bind (print_miners s (suc i) left) (λ lines. some (line ∷ lines)))

  -- The lines in front of those of the miners. The product is one of size_t, as TRANSACTIONS_PER_BLOCK is.
  unfoldable pub with_totals :
      (Double → ℕ → List ℕ) → ℕ → Statistics Double → List (List ℕ) → List (List ℕ)
  with_totals format_mean n s lines =
      heading
      ∷ processed_line s.total_blocks_processed
      ∷ valid_line s.blocks_in_chain
      ∷ mean_line (format_mean s.total_tx_time (u64 (int_to_size s.blocks_in_chain * n)))
      ∷ lines

  unfoldable pub print_statistics :
      (Double → ℕ → List ℕ) → ℕ → ℕ → Statistics Double → Option (List (List ℕ))
  print_statistics format_mean n num_miners s =
      bind (print_miners s 0 num_miners) (λ lines. some (with_totals format_mean n s lines))

  -- The messages of the handler of SIGUSR1.
  unfoldable pub handle_sigusr1 :
      (Double → ℕ → List ℕ) → ℕ → ℕ → Statistics Double → Option (List (List ℕ))
  handle_sigusr1 format_mean n num_miners s =
      bind (print_statistics format_mean n num_miners s) (λ lines. some (
        (codes "SIGUSR1 recebido - impress"
          ++ (195 ∷ 163 ∷ codes "o de estat")
          ++ (195 ∷ 173 ∷ codes "sticas..."))
        ∷ lines))

  -- The calls of the handler of SIGTERM: a line, those of printStatistics, and cleanup.
  unfoldable pub sigterm :
      (Double → ℕ → List ℕ) → ℕ → ℕ → Statistics Double → Worker → Option (List Call)
  sigterm format_mean n num_miners s w =
      bind (print_statistics format_mean n num_miners s)
        (λ lines. some (log ∷ (map (λ line. log) lines ++ statistics_cleanup w)))
