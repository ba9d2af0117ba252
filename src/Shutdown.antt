-- ===== src/Shutdown.antt =====
-- The end of a simulation: cleanup of src/Controller.c, call by call, against the signal handler thread of
-- src/Miner.c and the miner threads, in any interleaving.
pub mod Guarded
pub mod Announced
pub mod Stuck
pub mod Order
pub mod Tests
use projeto_so.Base.{
  ℕ, zero, suc, ◌+◌, ◌-◌, ◌<◌, ◌≡◌, Bool, true, false, ◌||◌, List, [], ◌∷◌, Option, none, some, ltb,
  ◌==◌, if◌then◌else◌, ℕ_discrete,
}
use mathlib.Core.Logic.{ite}
use projeto_so.Controller.Cleanup.{Call, terminate_process, wait_semaphore, pipeclosed}

-- A miner thread. With a request to cancel it, it goes on to its next cancellation point.
pub data Thread : Type 0 where
  working : Thread
  cancelled : Thread
  ended : Thread

unfoldable pub has_ended : Thread → Bool
has_ended working = false
has_ended cancelled = false
has_ended ended = true

-- Where signal_handler_thread stands: at sigwait, in one of its two loops, behind sem_post.
pub data Handler : Type 0 where
  waiting : Handler
  cancelling : ℕ → Handler
  joining : ℕ → Handler
  finished : Handler

unfoldable pub set_thread : (ℕ → Thread) → ℕ → Thread → ℕ → Thread
set_thread threads i t j = ite (ℕ_discrete i j) t (threads j)

-- pthread_cancel, which does nothing to a thread that has ended.
unfoldable pub request_cancel : Thread → Thread
request_cancel working = cancelled
request_cancel cancelled = cancelled
request_cancel ended = ended

pub record Shutdown : Type 0 where
  pub threads : ℕ → Thread
  pub handler : Handler
  -- The value of sem_pipeclosed.
  pub pipe_closed : ℕ
  -- What cleanup has still to call.
  pub calls : List Call
  pub miner_signalled : Bool
  pub validator_signalled : Bool
  -- How many blocks the miner threads have written.
  pub written : ℕ

-- A turn of a loop of signal_handler_thread, or its sem_post. `none`: it waits for a thread.
unfoldable pub signal_handler_step : ℕ → Shutdown → Handler → Option Shutdown
signal_handler_step num_miners s waiting =
    if s.miner_signalled then some (record s { handler = cancelling 0 }) else none
signal_handler_step num_miners s (cancelling i) =
    if ltb i num_miners
    then some (record s {
      handler = cancelling (suc i);
      threads = set_thread s.threads i (request_cancel (s.threads i));
    })
    else some (record s { handler = joining 0 })
signal_handler_step num_miners s (joining i) =
    if ltb i num_miners
    then (if has_ended (s.threads i) then some (record s { handler = joining (suc i) }) else none)
    else some (record s { handler = finished; pipe_closed = suc s.pipe_closed })
signal_handler_step num_miners s finished = none

-- A call of cleanup. `none`: it waits for the miner's post. The waits for processes, threads and the log
-- are taken to return, which only adds to what can happen.
unfoldable pub controller_step : ℕ → ℕ → Shutdown → Call → Option Shutdown
controller_step miner_pid validator_pid s (terminate_process pid) = some (record s {
  miner_signalled = (pid == miner_pid) || s.miner_signalled;
  validator_signalled = (pid == validator_pid) || s.validator_signalled;
})
controller_step miner_pid validator_pid s (wait_semaphore pipeclosed) =
    if s.pipe_closed == 0 then none else some (record s { pipe_closed = s.pipe_closed - 1 })
controller_step miner_pid validator_pid s _ = some s

pub data Step (num_miners miner_pid validator_pid : ℕ) (s : Shutdown) : Shutdown → Type 0 where
  -- A thread writes a block.
  write :
      (i : ℕ)
      → i < num_miners
      → has_ended (s.threads i) ≡ false
      → Step num_miners miner_pid validator_pid s (record s { written = suc s.written })
  -- A thread ends, at a cancellation point or at a full ledger. A semaphore that it holds then, as that of
  -- the log, is left out.
  leave :
      (i : ℕ)
      → Step num_miners miner_pid validator_pid s
          (record s { threads = set_thread s.threads i ended })
  handle :
      {t : Shutdown}
      → signal_handler_step num_miners s s.handler ≡ some t
      → Step num_miners miner_pid validator_pid s t
  go :
      {t : Shutdown} (c : Call) (rest : List Call)
      → s.calls ≡ c ∷ rest
      → controller_step miner_pid validator_pid (record s { calls = rest }) c ≡ some t
      → Step num_miners miner_pid validator_pid s t

pub data Reach (num_miners miner_pid validator_pid : ℕ) (s : Shutdown) : Shutdown → Type 0 where
  here : Reach num_miners miner_pid validator_pid s s
  next :
      {t u : Shutdown}
      → Reach num_miners miner_pid validator_pid s t
      → Step num_miners miner_pid validator_pid t u
      → Reach num_miners miner_pid validator_pid s u

-- The miner is at work and cleanup starts.
abbrev pub at_cleanup : (ℕ → Thread) → List Call → Shutdown
at_cleanup threads calls = record {
  threads = threads;
  handler = waiting;
  pipe_closed = 0;
  calls = calls;
  miner_signalled = false;
  validator_signalled = false;
  written = 0;
}
