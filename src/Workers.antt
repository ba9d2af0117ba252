-- ===== src/Workers.antt =====
-- The functions cleanup of src/Miner.c, src/Validator.c, src/Statistics.c and src/txGen.c: what a process
-- other than the controller closes, in the order of its calls.
pub mod Closed
pub mod Startup
pub mod Tests
use projeto_so.Base.{ℕ, Bool, List, [], ◌∷◌}
use projeto_so.Controller.Cleanup.{
  Segment, pool_segment, ledger_segment, transactions_pool, ledger_lock, minerwork, pipeclosed,
  log_lock, Call, log, print, unmap_segment, close_segment, free_ledger, close_semaphore,
  close_queue, close_pipe_end, free_counters, free_buffer, close_log_file, Semaphores, bit, when,
  in_order, logged, is_open, close_opened,
}

-- The static variables of such a process; it uses some of them. The three counters of the statistics process
-- are one allocation here.
pub record Worker : Type 0 where
  pub shm_transactionspool_base : Bool
  pub shm_transactionspool_fd : ℕ
  pub shm_ledger_base : Bool
  pub shm_ledger_fd : ℕ
  pub semaphores : Semaphores
  pub validation_pipe_fd : ℕ
  pub statistics_mq : ℕ
  pub counters : Bool
  pub buffer : Bool
  pub log_file : Bool

-- The descriptor of a segment, then its mapping.
unfoldable pub leave_segment : Segment → Bool → ℕ → List Call
leave_segment g base fd =
    in_order
      (when (is_open fd) (logged (close_segment g)) ∷ when base (logged (unmap_segment g)) ∷ [])

-- The file of the log, then its semaphore, without a line on it.
unfoldable pub leave_log : Worker → List Call
leave_log w = in_order (
    when w.log_file (close_log_file ∷ [])
    ∷ when (bit w.semaphores log_lock) (close_semaphore log_lock ∷ [])
    ∷ [])

unfoldable pub miner_cleanup : Worker → List Call
miner_cleanup w = in_order (
    (free_ledger ∷ [])
    ∷ leave_segment pool_segment w.shm_transactionspool_base w.shm_transactionspool_fd
    ∷ leave_segment ledger_segment w.shm_ledger_base w.shm_ledger_fd
    ∷ when (is_open w.validation_pipe_fd) (logged close_pipe_end)
    ∷ close_opened w.semaphores transactions_pool
    ∷ close_opened w.semaphores minerwork
    ∷ close_opened w.semaphores ledger_lock
    ∷ close_opened w.semaphores pipeclosed
    ∷ leave_log w
    ∷ [])

unfoldable pub validator_cleanup : Worker → List Call
validator_cleanup w = in_order (
    close_opened w.semaphores transactions_pool
    ∷ close_opened w.semaphores ledger_lock
    ∷ leave_segment ledger_segment w.shm_ledger_base w.shm_ledger_fd
    ∷ leave_segment pool_segment w.shm_transactionspool_base w.shm_transactionspool_fd
    ∷ when (is_open w.validation_pipe_fd) (logged close_pipe_end)
    ∷ (free_ledger ∷ [])
    ∷ when (is_open w.statistics_mq) (logged close_queue)
    ∷ leave_log w
    ∷ [])

unfoldable pub statistics_cleanup : Worker → List Call
statistics_cleanup w = in_order (
    when (is_open w.statistics_mq) (logged close_queue)
    ∷ when w.counters (free_counters ∷ [])
    ∷ leave_segment ledger_segment w.shm_ledger_base w.shm_ledger_fd
    ∷ close_opened w.semaphores ledger_lock
    ∷ when w.log_file (close_log_file ∷ [])
    ∷ when w.buffer (free_buffer ∷ [])
    ∷ (free_ledger ∷ [])
    ∷ when (bit w.semaphores log_lock) (close_semaphore log_lock ∷ [])
    ∷ [])

-- The generator has no log; it writes only what fails, to the terminal.
unfoldable pub generator_cleanup : Worker → List Call
generator_cleanup w = in_order (
    when (bit w.semaphores transactions_pool) (close_semaphore transactions_pool ∷ [])
    ∷ when (bit w.semaphores minerwork) (close_semaphore minerwork ∷ [])
    ∷ when (is_open w.shm_transactionspool_fd) (
        in_order (
          when w.shm_transactionspool_base (unmap_segment pool_segment ∷ [])
          ∷ (close_segment pool_segment ∷ [])
          ∷ []))
    ∷ [])

-- sigterm of src/Validator.c.
unfoldable pub validator_sigterm : Worker → List Call
validator_sigterm w = log ∷ validator_cleanup w

-- sigint of src/txGen.c.
unfoldable pub generator_sigint : Worker → List Call
generator_sigint w = print ∷ generator_cleanup w
