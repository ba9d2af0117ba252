-- ===== src/Workers/Startup.antt =====
-- The starts of src/Miner.c (miner), src/Validator.c (validator), src/Statistics.c (statistics) and
-- src/txGen.c (main): what each opens, in its order, and what it does where that fails. The text of log
-- lines, and lines on what succeeds, are left out, as are what is written into the mapped memory and the
-- counters that the statistics process allocates last.
pub mod Ending
pub mod Closed
use projeto_so.Base.{
  ℕ, zero, suc, Bool, true, false, List, [], ◌∷◌, ◌++◌, Option, none, some, minus_one,
  if◌then◌else◌,
}
use projeto_so.Controller.Cleanup.{
  Semaphore, transactions_pool, ledger_lock, minerwork, pipeclosed, log_lock, Segment, pool_segment,
  ledger_segment, with_bit, Kernel, Call, log, close_semaphore, close_segment, perform_all,
}
use projeto_so.Controller.Cleanup.Calls.{none_set}
use projeto_so.Workers.{
  Worker, miner_cleanup, validator_cleanup, statistics_cleanup, generator_cleanup,
}

pub data Resource : Type 0 where
  -- sem_open
  semaphore : Semaphore → Resource
  -- open_log_file
  text_file : Resource
  -- shm_open and mmap
  segment : Segment → Resource
  mapping : Segment → Resource
  -- mmap and munmap of the header of the pool
  header : Resource
  unmapped_header : Resource
  -- open of the validation pipe
  pipe_end : Resource
  -- mq_open and mq_getattr
  queue : Resource
  queue_attributes : Resource
  -- malloc of the buffer for messages
  message_buffer : Resource
  -- pthread_create of the thread for signals, and of a miner thread with its id
  signal_thread : Resource
  thread : ℕ → Resource

-- What a process opens; where that fails, the calls that it makes at once, and whether cleanup follows
-- before it exits or returns.
pub record Opening : Type 0 where
  pub resource : Resource
  pub at_once : List Call
  pub cleans : Bool

-- A failure that is reported in the log, or on the terminal alone, and one that leaves the rest to the exit.
unfoldable pub reported : Resource → Opening
reported r = record { resource = r; at_once = log ∷ []; cleans = true }

unfoldable pub unlogged : Resource → Opening
unlogged r = record { resource = r; at_once = []; cleans = true }

unfoldable pub left_open : Resource → List Call → Opening
left_open r calls = record { resource = r; at_once = calls; cleans = false }

unfoldable pub thread_openings : ℕ → ℕ → List Opening
thread_openings id zero = []
thread_openings id (suc n) = left_open (thread id) (log ∷ []) ∷ thread_openings (suc id) n

-- Behind the log's semaphore and the file.
unfoldable pub miner_later : ℕ → List Opening
miner_later num_miners =
    reported (semaphore transactions_pool)
    ∷ reported (semaphore minerwork)
    ∷ reported (semaphore ledger_lock)
    ∷ reported (semaphore pipeclosed)
    ∷ reported pipe_end
    ∷ reported (segment pool_segment)
    ∷ record {
      resource = mapping pool_segment;
      at_once = log ∷ close_segment pool_segment ∷ [];
      cleans = true;
    }
    ∷ reported (segment ledger_segment)
    ∷ left_open (mapping ledger_segment) (log ∷ close_segment ledger_segment ∷ [])
    ∷ left_open signal_thread (log ∷ [])
    ∷ thread_openings 1 num_miners

unfoldable pub miner_openings : ℕ → List Opening
miner_openings num_miners =
    left_open (semaphore log_lock) []
    ∷ left_open text_file (close_semaphore log_lock ∷ [])
    ∷ miner_later num_miners

unfoldable pub validator_later : List Opening
validator_later =
    reported (segment pool_segment)
    ∷ reported (mapping pool_segment)
    ∷ reported (segment ledger_segment)
    ∷ reported (mapping ledger_segment)
    ∷ unlogged (semaphore transactions_pool)
    ∷ reported (semaphore ledger_lock)
    ∷ reported pipe_end
    ∷ reported queue
    ∷ []

unfoldable pub validator_openings : List Opening
validator_openings = unlogged (semaphore log_lock) ∷ unlogged text_file ∷ validator_later

unfoldable pub statistics_later : List Opening
statistics_later =
    reported queue
    ∷ left_open (segment ledger_segment) (log ∷ [])
    ∷ left_open (mapping ledger_segment) (log ∷ close_segment ledger_segment ∷ [])
    ∷ reported (semaphore ledger_lock)
    ∷ reported queue_attributes
    ∷ reported message_buffer
    ∷ []

unfoldable pub statistics_openings : List Opening
statistics_openings = unlogged (semaphore log_lock) ∷ unlogged text_file ∷ statistics_later

unfoldable pub generator_openings : List Opening
generator_openings =
    unlogged (semaphore transactions_pool)
    ∷ unlogged (semaphore minerwork)
    ∷ unlogged (segment pool_segment)
    ∷ unlogged header
    ∷ unlogged unmapped_header
    ∷ unlogged (mapping pool_segment)
    ∷ []

-- The static variables before the start. The queue's descriptor has no initial value in the source.
unfoldable pub unopened : Worker
unopened = record {
  shm_transactionspool_base = false;
  shm_transactionspool_fd = minus_one;
  shm_ledger_base = false;
  shm_ledger_fd = minus_one;
  semaphores = none_set;
  validation_pipe_fd = minus_one;
  statistics_mq = 0;
  counters = false;
  buffer = false;
  log_file = false;
}

-- The generator's descriptor starts as 0.
unfoldable pub unopened_generator : Worker
unopened_generator = record unopened { shm_transactionspool_fd = 0 }

unfoldable pub opened : Resource → ℕ → Worker → Worker
opened (semaphore s) v w = record w { semaphores = with_bit w.semaphores s true }
opened text_file v w = record w { log_file = true }
opened (segment pool_segment) v w = record w { shm_transactionspool_fd = v }
opened (segment ledger_segment) v w = record w { shm_ledger_fd = v }
opened (mapping pool_segment) v w = record w { shm_transactionspool_base = true }
opened (mapping ledger_segment) v w = record w { shm_ledger_base = true }
opened header v w = record w { shm_transactionspool_base = true }
opened unmapped_header v w = w
opened pipe_end v w = record w { validation_pipe_fd = v }
opened queue v w = record w { statistics_mq = v }
opened queue_attributes v w = w
opened message_buffer v w = record w { buffer = true }
opened signal_thread v w = w
opened (thread id) v w = w

-- MAP_FAILED is not NULL, SEM_FAILED is.
unfoldable pub refused : Resource → Worker → Worker
refused (semaphore s) w = record w { semaphores = with_bit w.semaphores s false }
refused text_file w = record w { log_file = false }
refused (segment pool_segment) w = record w { shm_transactionspool_fd = minus_one }
refused (segment ledger_segment) w = record w { shm_ledger_fd = minus_one }
refused (mapping pool_segment) w = record w { shm_transactionspool_base = true }
refused (mapping ledger_segment) w = record w { shm_ledger_base = true }
refused header w = record w { shm_transactionspool_base = true }
refused unmapped_header w = w
refused pipe_end w = record w { validation_pipe_fd = minus_one }
refused queue w = record w { statistics_mq = minus_one }
refused queue_attributes w = w
refused message_buffer w = record w { buffer = false }
refused signal_thread w = w
refused (thread id) w = w

-- What the process holds behind it. The miner creates the semaphore of the closed pipe where it is not there.
unfoldable pub granted : Resource → Kernel → Kernel
granted (semaphore pipeclosed) k = record k {
  handles = with_bit k.handles pipeclosed true;
  named = with_bit k.named pipeclosed true;
}
granted (semaphore s) k = record k { handles = with_bit k.handles s true }
granted _ k = k

-- The process has opened everything, or it ends at an opening with these calls.
pub data Start : Type 0 where
  started : Worker → Kernel → Start
  ended : Opening → List Call → Kernel → Start

module _ (leave : Worker → List Call) where
  unfoldable pub give_up : Opening → Worker → List Call
  give_up o w = if o.cleans then o.at_once ++ leave (refused o.resource w) else o.at_once

  unfoldable pub after_opening : Option ℕ → (ℕ → Start) → Start → Start
  after_opening none next failed = failed
  after_opening (some v) next failed = next v

  unfoldable pub open_all : (Resource → Option ℕ) → List Opening → Worker → Kernel → Start
  open_all answers [] w k = started w k
  open_all answers (o ∷ rest) w k =
      after_opening (answers o.resource)
        (λ v. open_all answers rest (opened o.resource v w) (granted o.resource k))
        (ended o (give_up o w) k)

unfoldable pub miner_start : (Resource → Option ℕ) → ℕ → Kernel → Start
miner_start answers num_miners k =
    open_all miner_cleanup answers (miner_openings num_miners) unopened k

unfoldable pub validator_start : (Resource → Option ℕ) → Kernel → Start
validator_start answers k = open_all validator_cleanup answers validator_openings unopened k

unfoldable pub statistics_start : (Resource → Option ℕ) → Kernel → Start
statistics_start answers k = open_all statistics_cleanup answers statistics_openings unopened k

unfoldable pub generator_start : (Resource → Option ℕ) → Kernel → Start
generator_start answers k =
    open_all generator_cleanup answers generator_openings unopened_generator k
