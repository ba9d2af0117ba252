-- ===== src/Controller/Cleanup.antt =====
-- src/Controller.c: cleanup, as the calls that it makes, in their order. What a call returns only chooses
-- the text of a log line, and at the signal of a child whether there is one.
pub mod Calls
pub mod Sections
pub mod Released
use projeto_so.Base.{
  ℕ, ◌≡◌, refl, Bool, true, false, List, [], ◌∷◌, ◌++◌, ltb_int, minus_one, ◌==◌, if◌then◌else◌,
  Option, none, some,
}
use mathlib.Core.Option.{bind}
use projeto_so.Controller.{Children}

-- The semaphores that the controller creates.
pub data Semaphore : Type 0 where
  transactions_pool : Semaphore
  ledger_lock : Semaphore
  minerwork : Semaphore
  pipeclosed : Semaphore
  log_lock : Semaphore

pub data Segment : Type 0 where
  pool_segment : Segment
  ledger_segment : Segment

pub data Call : Type 0 where
  -- signal(SIGINT, SIG_IGN)
  ignore_sigint : Call
  -- log_info, which waits on the semaphore of the log and posts it
  log : Call
  -- kill with SIGTERM, and waitpid
  terminate_process : ℕ → Call
  wait_process : ℕ → Call
  cancel_launcher : Call
  join_launcher : Call
  wait_semaphore : Semaphore → Call
  post_semaphore : Semaphore → Call
  unmap_segment : Segment → Call
  close_segment : Segment → Call
  unlink_segment : Segment → Call
  free_ledger : Call
  -- free of the counters of the statistics process and of its buffer
  free_counters : Call
  free_buffer : Call
  close_semaphore : Semaphore → Call
  unlink_semaphore : Semaphore → Call
  close_queue : Call
  -- close of the validation pipe
  close_pipe_end : Call
  unlink_queue : Call
  unlink_pipe : Call
  -- printf, to the terminal alone
  print : Call
  close_log_file : Call

-- A bit for each semaphore.
pub record Semaphores : Type 0 where
  pub of_pool : Bool
  pub of_ledger : Bool
  pub of_work : Bool
  pub of_pipe : Bool
  pub of_log : Bool

unfoldable pub bit : Semaphores → Semaphore → Bool
bit m transactions_pool = m.of_pool
bit m ledger_lock = m.of_ledger
bit m minerwork = m.of_work
bit m pipeclosed = m.of_pipe
bit m log_lock = m.of_log

-- The static variables of the controller. A pointer is whether it differs from NULL, which is SEM_FAILED too.
pub record Process : Type 0 where
  pub cleanup_called : Bool
  pub validators : Children
  pub validator_thread_created : Bool
  pub miner_pid : ℕ
  pub validator_pid : ℕ
  pub statistics_pid : ℕ
  pub shm_transactionspool_base : Bool
  pub shm_transactionspool_fd : ℕ
  pub shm_ledger_base : Bool
  pub shm_ledger_fd : ℕ
  pub semaphores : Semaphores
  pub statistics_mq : ℕ
  pub log_file : Bool

unfoldable pub when : Bool → List Call → List Call
when b calls = if b then calls else []

unfoldable pub in_order : List (List Call) → List Call
in_order [] = []
in_order (calls ∷ rest) = calls ++ in_order rest

-- A call and the log line on its result.
unfoldable pub logged : Call → List Call
logged c = c ∷ log ∷ []

unfoldable pub stop_validators : Children → List Call
stop_validators c = in_order (
    (log ∷ [])
    ∷ when (ltb_int 0 c.second) (logged (terminate_process c.second))
    ∷ when (ltb_int 0 c.third) (logged (terminate_process c.third))
    ∷ when (ltb_int 0 c.second) (logged (wait_process c.second))
    ∷ when (ltb_int 0 c.third) (logged (wait_process c.third))
    ∷ [])

unfoldable pub stop_launcher : Process → List Call
stop_launcher p = when p.validator_thread_created (cancel_launcher ∷ join_launcher ∷ log ∷ [])

-- A process that is signalled: the line before, and one if kill fails.
unfoldable pub signal_child : (ℕ → Bool) → ℕ → List Call
signal_child kill_fails pid = log ∷ terminate_process pid ∷ when (kill_fails pid) (log ∷ [])

-- The miner, the validator once the miner has closed the pipe, and the statistics.
unfoldable pub stop_children : (ℕ → Bool) → Process → List Call
stop_children kill_fails p = in_order (
    (log ∷ [])
    ∷ when (ltb_int 0 p.miner_pid) (signal_child kill_fails p.miner_pid)
    ∷ when (ltb_int 0 p.validator_pid)
        (wait_semaphore pipeclosed ∷ signal_child kill_fails p.validator_pid)
    ∷ when (ltb_int 0 p.statistics_pid) (signal_child kill_fails p.statistics_pid)
    ∷ (log ∷ [])
    ∷ when (ltb_int 0 p.miner_pid) (logged (wait_process p.miner_pid))
    ∷ when (ltb_int 0 p.validator_pid) (logged (wait_process p.validator_pid))
    ∷ when (ltb_int 0 p.statistics_pid) (logged (wait_process p.statistics_pid))
    ∷ [])

unfoldable pub is_open : ℕ → Bool
is_open descriptor = if descriptor == minus_one then false else true

unfoldable pub release_segment : Segment → Bool → ℕ → List Call
release_segment g base fd = in_order (
    when base (logged (unmap_segment g))
    ∷ when (is_open fd) (logged (close_segment g))
    ∷ logged (unlink_segment g)
    ∷ [])

-- handle_sigusr1 does the same. dump_ledger logs once, whether the ledger is there, whether malloc fails.
unfoldable pub dump : List Call
dump = log ∷ wait_semaphore ledger_lock ∷ log ∷ post_semaphore ledger_lock ∷ []

unfoldable pub close_opened : Semaphores → Semaphore → List Call
close_opened m s = when (bit m s) (logged (close_semaphore s))

unfoldable pub close_semaphores : Process → List Call
close_semaphores p = in_order (
    close_opened p.semaphores transactions_pool
    ∷ close_opened p.semaphores minerwork
    ∷ close_opened p.semaphores ledger_lock
    ∷ close_opened p.semaphores pipeclosed
    ∷ when (is_open p.statistics_mq) (logged close_queue)
    ∷ [])

unfoldable pub unlink_names : List Call
unlink_names = in_order (
    logged (unlink_semaphore transactions_pool)
    ∷ logged (unlink_semaphore ledger_lock)
    ∷ logged (unlink_semaphore minerwork)
    ∷ logged (unlink_semaphore pipeclosed)
    ∷ logged unlink_pipe
    ∷ logged unlink_queue
    ∷ [])

unfoldable pub close_log : Process → List Call
close_log p = in_order (
    when (bit p.semaphores log_lock) (close_semaphore log_lock ∷ print ∷ [])
    ∷ (unlink_semaphore log_lock ∷ print ∷ [])
    ∷ when p.log_file (close_log_file ∷ [])
    ∷ [])

-- The calls behind the guard against a second cleanup.
unfoldable pub release : (ℕ → Bool) → Process → List Call
release kill_fails p = in_order (
    (log ∷ [])
    ∷ stop_validators p.validators
    ∷ stop_launcher p
    ∷ stop_children kill_fails p
    ∷ release_segment pool_segment p.shm_transactionspool_base p.shm_transactionspool_fd
    ∷ dump
    ∷ release_segment ledger_segment p.shm_ledger_base p.shm_ledger_fd
    ∷ (free_ledger ∷ [])
    ∷ close_semaphores p
    ∷ unlink_names
    ∷ close_log p
    ∷ [])

unfoldable pub cleanup : (ℕ → Bool) → Process → List Call × Process
cleanup kill_fails p =
    if p.cleanup_called
    then (ignore_sigint ∷ [], p)
    else (ignore_sigint ∷ release kill_fails p, record p { cleanup_called = true })

-- The handler of SIGUSR1.
unfoldable pub handle_sigusr1 : List Call
handle_sigusr1 = dump

-- The handler of SIGINT. It exits behind these calls.
unfoldable pub sigint : (ℕ → Bool) → Process → List Call × Process
sigint kill_fails p =
    let (calls, q) = cleanup kill_fails p in
    if p.cleanup_called then (ignore_sigint ∷ log ∷ [], p) else (ignore_sigint ∷ log ∷ calls, q)

-- What the system holds for the controller: the semaphores that it has open, and the names that exist.
pub record Kernel : Type 0 where
  pub handles : Semaphores
  pub named : Semaphores
  pub pool_named : Bool
  pub ledger_named : Bool
  pub pipe_named : Bool
  pub queue_named : Bool

unfoldable pub with_bit : Semaphores → Semaphore → Bool → Semaphores
with_bit m transactions_pool b = record m { of_pool = b }
with_bit m ledger_lock b = record m { of_ledger = b }
with_bit m minerwork b = record m { of_work = b }
with_bit m pipeclosed b = record m { of_pipe = b }
with_bit m log_lock b = record m { of_log = b }

-- A call on a semaphore that is not open is an access through NULL or through a closed handle: `none`. Other
-- calls return, and an unlink succeeds.
unfoldable pub perform : Kernel → Call → Option Kernel
perform k log = if bit k.handles log_lock then some k else none
perform k (wait_semaphore s) = if bit k.handles s then some k else none
perform k (post_semaphore s) = if bit k.handles s then some k else none
perform k (close_semaphore s) =
    if bit k.handles s then some (record k { handles = with_bit k.handles s false }) else none
perform k (unlink_semaphore s) = some (record k { named = with_bit k.named s false })
perform k (unlink_segment pool_segment) = some (record k { pool_named = false })
perform k (unlink_segment ledger_segment) = some (record k { ledger_named = false })
perform k unlink_queue = some (record k { queue_named = false })
perform k unlink_pipe = some (record k { pipe_named = false })
perform k _ = some k

unfoldable pub perform_all : Kernel → List Call → Option Kernel
perform_all k [] = some k
perform_all k (c ∷ calls) = bind (perform k c) (λ k2. perform_all k2 calls)
