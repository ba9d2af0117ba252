-- ===== src/Logging/Section/Silent.antt =====
-- A thread that a signal interrupts between sem_wait and sem_post, with a handler that logs.
use projeto_so.Base.{
  ◌≤◌, ◌<◌, ◌≡◌, refl, sym, ap, ◌∙◌, Bool, true, false, List, ◌∷◌, none, some, if◌then◌else◌, arith,
}
use projeto_so.Logging.{Message}
use projeto_so.Logging.Section.{
  LogPhase, idle, waiting, entered, filed, shown, Log, log_step, ThreadStep, run, call_log, signal,
  back, Step, here, there, Reach, stop, step,
}
use projeto_so.Logging.Section.Effects.{inside, inside_thread, inside_all}
use projeto_so.Logging.Section.Order.{at_most_one, Reach-InOrder}

-- The handler waits on the semaphore that the thread below it has taken.
pub data Blocked : List LogPhase → Type 0 where
  by_handler :
      (m : Message) {stack : List LogPhase} → 0 < inside_thread stack → Blocked (waiting m ∷ stack)

pub data SomeBlocked : List (List LogPhase) → Type 0 where
  this : {s : List LogPhase} {rest : List (List LogPhase)} → Blocked s → SomeBlocked (s ∷ rest)
  other :
      {s : List LogPhase} {rest : List (List LogPhase)} → SomeBlocked rest → SomeBlocked (s ∷ rest)

Blocked-inside : {s : List LogPhase} → Blocked s → 0 < inside_thread s
unfolding inside_thread
Blocked-inside (by_handler m h) = omega (arith, h)

SomeBlocked-inside : {ps : List (List LogPhase)} → SomeBlocked ps → 0 < inside_all ps
unfolding inside_all
SomeBlocked-inside (this b) = omega (arith, Blocked-inside b)
SomeBlocked-inside (other b) = omega (arith, SomeBlocked-inside b)

-- A call that is not inside its section waits while the semaphore is taken.
log_step-waits :
    (f g : LogPhase) (l l2 : Log) → l.taken ≡ true → log_step f l ≡ some (g, l2) → 0 < inside f
unfolding log_step inside
log_step-waits idle g l l2 t e = cc e
log_step-waits (waiting m) g l l2 t e =
    cc (ap (λ b. if b then none else some (entered m, record l { taken = true })) (sym t) ∙ e)
log_step-waits (entered m) g l l2 t e = omega arith
log_step-waits (filed m) g l l2 t e = omega arith
log_step-waits shown g l l2 t e = omega arith

-- Threads without a call in its section change nothing, and come into none.
calm :
    {s t : List LogPhase} {l l2 : Log}
    → l.taken ≡ true
    → inside_thread s ≡ 0
    → ThreadStep s l t l2
    → (l2 ≡ l) × (inside_thread t ≡ 0)
unfolding inside_thread inside
calm h e (run {f} {g} {stack} {l} {l2} r) = absurd (omega (arith, e, log_step-waits f g l l2 h r))
calm h e (call_log m) = (refl, e)
calm h e (signal m) = (refl, omega (arith, e))
calm h e back = (refl, omega (arith, e))

calm_all :
    {ps qs : List (List LogPhase)} {l l2 : Log}
    → l.taken ≡ true
    → inside_all ps ≡ 0
    → Step ps l qs l2
    → (l2 ≡ l) × (inside_all qs ≡ 0)
unfolding inside_all
calm_all h e (here v) =
    let (same, quiet) = calm h (omega (arith, e)) v in (same, omega (arith, quiet, e))
calm_all h e (there v) =
    let (same, quiet) = calm_all h (omega (arith, e)) v in (same, omega (arith, quiet, e))

-- The blocked thread can only be interrupted again.
Blocked-ThreadStep :
    {s t : List LogPhase} {l l2 : Log}
    → l.taken ≡ true
    → Blocked s
    → ThreadStep s l t l2
    → (l2 ≡ l) × Blocked t × (inside_thread t ≡ inside_thread s)
unfolding inside_thread inside
Blocked-ThreadStep h (by_handler m b) (run {g} {l} {l2} r) =
    absurd (omega (arith, log_step-waits (waiting m) g l l2 h r))
Blocked-ThreadStep h (by_handler m b) (signal m2) =
    (refl, by_handler m2 (omega (arith, b)), omega arith)

SomeBlocked-Step :
    {ps qs : List (List LogPhase)} {l l2 : Log}
    → l.taken ≡ true
    → inside_all ps ≤ 1
    → SomeBlocked ps
    → Step ps l qs l2
    → (l2 ≡ l) × SomeBlocked qs × (inside_all qs ≡ inside_all ps)
unfolding inside_all
SomeBlocked-Step h few (this b) (here v) =
    let (same, blocked, less) = Blocked-ThreadStep h b v in
    (same, this blocked, omega (arith, less))
SomeBlocked-Step h few (this b) (there v) =
    let (same, quiet) = calm_all h (omega (arith, few, Blocked-inside b)) v in
    (same, this b, omega (arith, few, quiet, Blocked-inside b))
SomeBlocked-Step h few (other b) (here v) =
    let (same, quiet) = calm h (omega (arith, few, SomeBlocked-inside b)) v in
    (same, other b, omega (arith, few, quiet, SomeBlocked-inside b))
SomeBlocked-Step h few (other b) (there v) =
    let (same, blocked, less) = SomeBlocked-Step h (omega (arith, few)) b v in
    (same, other blocked, omega (arith, less))

module _ (l : Log) where
  SomeBlocked-Reach :
      {ps qs : List (List LogPhase)} {l2 : Log}
      → l.taken ≡ true
      → inside_all ps ≤ 1
      → SomeBlocked ps
      → Reach ps l qs l2
      → (l2 ≡ l) × SomeBlocked qs × (inside_all qs ≤ 1)
  SomeBlocked-Reach h few b stop = (refl, b, few)
  SomeBlocked-Reach h few b (step {l2 = l1} r v) =
      let (same, blocked, less) = SomeBlocked-Reach h few b r in
      let (same2, blocked2, equal) =
        SomeBlocked-Step (ap (λ (k : Log). k.taken) same ∙ h) less blocked v in
      (same2 ∙ same, blocked2, omega (arith, less, equal))

taken_of : (b : Bool) → 0 < (if b then 1 else 0) → b ≡ true
taken_of true h = refl
taken_of false h = absurd (omega arith)

-- Once a signal with a handler that logs has interrupted a call of log_info in its section, and the
-- handler waits, nothing is ever logged again by any process, if the semaphore is free and no call
-- is in its section at first.
pub SomeBlocked-silent :
    (ps qs rs : List (List LogPhase)) (l l2 l3 : Log)
    → inside_all ps ≡ 0
    → l.taken ≡ false
    → Reach ps l qs l2
    → SomeBlocked qs
    → Reach qs l2 rs l3
    → l3 ≡ l2
SomeBlocked-silent ps qs rs l l2 l3 outside free r b later =
    let v = Reach-InOrder ps l outside free qs l2 r in
    let taken = taken_of l2.taken (omega (arith, SomeBlocked-inside b, v.count)) in
    (SomeBlocked-Reach l2 taken (omega (arith, v.count, at_most_one l2.taken)) b later).0
