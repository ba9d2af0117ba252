-- ===== src/Controller/Startup.antt =====
-- src/Controller.c: what main opens and starts, step by step, and what a step that fails leaves to cleanup.
-- The configuration has been read and the log file is open. Log lines, and what is written into the
-- segments, are left out.
pub mod Failing
use projeto_so.Base.{
  ℕ, zero, ◌≡◌, refl, Bool, true, false, List, [], ◌∷◌, Option, none, some, minus_one,
}
use projeto_so.Controller.{Children}
use projeto_so.Controller.Cleanup.{
  Semaphore, transactions_pool, ledger_lock, minerwork, pipeclosed, log_lock, Segment, pool_segment,
  ledger_segment, Semaphores, with_bit, Process, Kernel, Call, cleanup,
}

pub data Child : Type 0 where
  miner : Child
  validator : Child
  statistics : Child

pub data Step : Type 0 where
  -- sem_open
  open_semaphore : Semaphore → Step
  -- shm_open, ftruncate and mmap
  open_segment : Segment → Step
  resize_segment : Segment → Step
  map_segment : Segment → Step
  -- mkfifo, which may find that the pipe exists
  make_pipe : Step
  -- mq_open
  open_queue : Step
  -- fork
  start_child : Child → Step
  -- pthread_create
  start_launcher : Step

unfoldable pub steps : List Step
steps =
    open_semaphore log_lock
    ∷ open_semaphore transactions_pool
    ∷ open_semaphore ledger_lock
    ∷ open_semaphore minerwork
    ∷ open_semaphore pipeclosed
    ∷ open_segment pool_segment
    ∷ resize_segment pool_segment
    ∷ map_segment pool_segment
    ∷ open_segment ledger_segment
    ∷ resize_segment ledger_segment
    ∷ map_segment ledger_segment
    ∷ make_pipe
    ∷ open_queue
    ∷ start_child miner
    ∷ start_child validator
    ∷ start_child statistics
    ∷ start_launcher
    ∷ []

-- The static variables before main, with an open log file.
unfoldable pub initial : Process
initial = record {
  cleanup_called = false;
  validators = record { second = 0; third = 0 };
  validator_thread_created = false;
  miner_pid = 0;
  validator_pid = 0;
  statistics_pid = 0;
  shm_transactionspool_base = false;
  shm_transactionspool_fd = 0;
  shm_ledger_base = false;
  shm_ledger_fd = 0;
  semaphores = record {
    of_pool = false;
    of_ledger = false;
    of_work = false;
    of_pipe = false;
    of_log = false;
  };
  statistics_mq = 0;
  log_file = true;
}

unfoldable pub with_pid : Process → Child → ℕ → Process
with_pid p miner pid = record p { miner_pid = pid }
with_pid p validator pid = record p { validator_pid = pid }
with_pid p statistics pid = record p { statistics_pid = pid }

-- A step that the system answers with a value: a descriptor or a process id, where it gives one. In a
-- child the value of fork is 0: this is the controller's side.
unfoldable pub succeed : Step → ℕ → Process → Process
succeed (open_semaphore s) v p = record p { semaphores = with_bit p.semaphores s true }
succeed (open_segment pool_segment) v p = record p { shm_transactionspool_fd = v }
succeed (open_segment ledger_segment) v p = record p { shm_ledger_fd = v }
succeed (resize_segment g) v p = p
succeed (map_segment pool_segment) v p = record p { shm_transactionspool_base = true }
succeed (map_segment ledger_segment) v p = record p { shm_ledger_base = true }
succeed make_pipe v p = p
succeed open_queue v p = record p { statistics_mq = v }
succeed (start_child c) v p = with_pid p c v
succeed start_launcher v p = record p { validator_thread_created = true }

-- A step that fails. MAP_FAILED is not NULL.
unfoldable pub fail : Step → Process → Process
fail (open_semaphore s) p = record p { semaphores = with_bit p.semaphores s false }
fail (open_segment pool_segment) p = record p { shm_transactionspool_fd = minus_one }
fail (open_segment ledger_segment) p = record p { shm_ledger_fd = minus_one }
fail (resize_segment g) p = p
fail (map_segment pool_segment) p = record p { shm_transactionspool_base = true }
fail (map_segment ledger_segment) p = record p { shm_ledger_base = true }
fail make_pipe p = p
fail open_queue p = record p { statistics_mq = minus_one }
fail (start_child c) p = with_pid p c minus_one
fail start_launcher p = p

-- What the system holds behind a step that succeeds.
unfoldable pub hold : Step → Kernel → Kernel
hold (open_semaphore s) k = record k {
  handles = with_bit k.handles s true;
  named = with_bit k.named s true;
}
hold (open_segment pool_segment) k = record k { pool_named = true }
hold (open_segment ledger_segment) k = record k { ledger_named = true }
hold make_pipe k = record k { pipe_named = true }
hold open_queue k = record k { queue_named = true }
hold _ k = k

-- main goes on, or it calls cleanup and exits.
pub data MainState : Type 0 where
  running : Process → Kernel → MainState
  gave_up : Process → Kernel → MainState

unfoldable pub after_step : Option ℕ → (ℕ → MainState) → MainState → MainState
after_step none next failed = failed
after_step (some v) next failed = next v

unfoldable pub start_up : (Step → Option ℕ) → List Step → Process → Kernel → MainState
start_up answers [] p k = running p k
start_up answers (s ∷ rest) p k =
    after_step (answers s) (λ v. start_up answers rest (succeed s v p) (hold s k))
      (gave_up (fail s p) k)
