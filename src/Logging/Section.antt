-- ===== src/Logging/Section.antt =====
-- Processes that log at the same time: the section of log_info between sem_wait and sem_post, cut into
-- its writes, with signals whose handlers log in any place.
pub mod Effects
pub mod Order
pub mod Silent
use projeto_so.Base.{
  ℕ, ◌≡◌, Bool, true, false, List, [], ◌∷◌, ◌++◌, Option, none, some, if◌then◌else◌,
}
use projeto_so.Logging.{Message, file_line, screen_text}

-- Where a call of log_info stands; `idle` is outside of any.
pub data LogPhase : Type 0 where
  idle : LogPhase
  -- before sem_wait
  waiting : Message → LogPhase
  -- before the write to the file, to the terminal, and before sem_post
  entered : Message → LogPhase
  filed : Message → LogPhase
  shown : LogPhase

-- The file is opened to append, and flushed behind each line. The semaphore is taken or free.
pub record Log : Type 0 where
  pub file : List ℕ
  pub screen : List ℕ
  pub taken : Bool

-- `none` where the call waits.
unfoldable pub log_step : LogPhase → Log → Option (LogPhase × Log)
log_step idle l = none
log_step (waiting m) l = if l.taken then none else some (entered m, record l { taken = true })
log_step (entered m) l = some (filed m, record l { file = l.file ++ file_line m })
log_step (filed m) l = some (shown, record l { screen = l.screen ++ screen_text m })
log_step shown l = some (idle, record l { taken = false })

-- A thread: what it runs, and below it what a signal has interrupted.
pub data ThreadStep : List LogPhase → Log → List LogPhase → Log → Type 0 where
  run :
      {f g : LogPhase} {stack : List LogPhase} {l l2 : Log}
      → log_step f l ≡ some (g, l2)
      → ThreadStep (f ∷ stack) l (g ∷ stack) l2
  call_log :
      {stack : List LogPhase} {l : Log} (m : Message)
      → ThreadStep (idle ∷ stack) l (waiting m ∷ stack) l
  -- the handler's call of log_info
  signal :
      {f : LogPhase} {stack : List LogPhase} {l : Log} (m : Message)
      → ThreadStep (f ∷ stack) l (waiting m ∷ f ∷ stack) l
  -- the handler returns
  back :
      {f : LogPhase} {stack : List LogPhase} {l : Log}
      → ThreadStep (idle ∷ f ∷ stack) l (f ∷ stack) l

-- The threads of all processes, one of which moves.
pub data Step : List (List LogPhase) → Log → List (List LogPhase) → Log → Type 0 where
  here :
      {s t : List LogPhase} {rest : List (List LogPhase)} {l l2 : Log}
      → ThreadStep s l t l2
      → Step (s ∷ rest) l (t ∷ rest) l2
  there :
      {s : List LogPhase} {rest rest2 : List (List LogPhase)} {l l2 : Log}
      → Step rest l rest2 l2
      → Step (s ∷ rest) l (s ∷ rest2) l2

pub data Reach : List (List LogPhase) → Log → List (List LogPhase) → Log → Type 0 where
  stop : {ps : List (List LogPhase)} {l : Log} → Reach ps l ps l
  step :
      {ps qs rs : List (List LogPhase)} {l l2 l3 : Log}
      → Reach ps l qs l2
      → Step qs l2 rs l3
      → Reach ps l rs l3
