-- ===== src/Workers/Startup/Ending.antt =====
-- What the processes leave open when they give up at their start.
use projeto_so.Base.{
  ℕ, ◌≡◌, refl, sym, ap, subst, ◌∙◌, Bool, true, false, List, [], ◌∷◌, ◌++◌, Option, none, some,
  if◌then◌else◌,
}
use mathlib.Core.List.{append-nil}
use mathlib.Core.Option.{bind}
use projeto_so.Controller.Cleanup.{
  transactions_pool, ledger_lock, minerwork, pipeclosed, log_lock, Segment, pool_segment,
  ledger_segment, Semaphores, bit, with_bit, Kernel, Call, log, close_segment, perform, perform_all,
}
use projeto_so.Controller.Cleanup.Calls.{none_set}
use projeto_so.Workers.{Worker}
use projeto_so.Workers.Startup.{
  Resource, semaphore, text_file, segment, mapping, header, unmapped_header, pipe_end, queue,
  queue_attributes, message_buffer, signal_thread, thread, Opening, opened, refused, granted, Start,
  started, ended, give_up, after_opening, open_all,
}

-- Calls that are made behind a failure and change no semaphore; a process without a log makes none.
pub data Reports (has_log : Bool) : List Call → Type 0 where
  nothing : Reports has_log []
  line :
      {calls : List Call} → has_log ≡ true → Reports has_log calls → Reports has_log (log ∷ calls)
  closing :
      {calls : List Call} {g : Segment}
      → Reports has_log calls
      → Reports has_log (close_segment g ∷ calls)

Reports-perform_all :
    {has_log : Bool} {calls : List Call} (k : Kernel) (rest : List Call)
    → (has_log ≡ true → k.handles.of_log ≡ true)
    → Reports has_log calls
    → perform_all k (calls ++ rest) ≡ perform_all k rest
unfolding perform_all bind perform bit
Reports-perform_all k rest h nothing = refl
Reports-perform_all {calls = c ∷ calls} k rest h (line e r) =
    ap (λ b. bind (if b then some k else none) (λ k2. perform_all k2 (calls ++ rest))) (h e)
    ∙ Reports-perform_all k rest h r
Reports-perform_all k rest h (closing r) = Reports-perform_all k rest h r

-- The semaphores behind an opening, and behind one that fails.
unfoldable pub grow : Resource → Semaphores → Semaphores
grow (semaphore s) m = with_bit m s true
grow _ m = m

unfoldable pub shrink : Resource → Semaphores → Semaphores
shrink (semaphore s) m = with_bit m s false
shrink _ m = m

opened-semaphores :
    (r : Resource) (v : ℕ) (w : Worker) → (opened r v w).semaphores ≡ grow r w.semaphores
unfolding opened grow
opened-semaphores (semaphore s) v w = refl
opened-semaphores (segment pool_segment) v w = refl
opened-semaphores (segment ledger_segment) v w = refl
opened-semaphores (mapping pool_segment) v w = refl
opened-semaphores (mapping ledger_segment) v w = refl
opened-semaphores text_file v w = refl
opened-semaphores header v w = refl
opened-semaphores unmapped_header v w = refl
opened-semaphores pipe_end v w = refl
opened-semaphores queue v w = refl
opened-semaphores queue_attributes v w = refl
opened-semaphores message_buffer v w = refl
opened-semaphores signal_thread v w = refl
opened-semaphores (thread id) v w = refl

refused-semaphores : (r : Resource) (w : Worker) → (refused r w).semaphores ≡ shrink r w.semaphores
unfolding refused shrink
refused-semaphores (semaphore s) w = refl
refused-semaphores (segment pool_segment) w = refl
refused-semaphores (segment ledger_segment) w = refl
refused-semaphores (mapping pool_segment) w = refl
refused-semaphores (mapping ledger_segment) w = refl
refused-semaphores text_file w = refl
refused-semaphores header w = refl
refused-semaphores unmapped_header w = refl
refused-semaphores pipe_end w = refl
refused-semaphores queue w = refl
refused-semaphores queue_attributes w = refl
refused-semaphores message_buffer w = refl
refused-semaphores signal_thread w = refl
refused-semaphores (thread id) w = refl

granted-handles : (r : Resource) (k : Kernel) → (granted r k).handles ≡ grow r k.handles
unfolding granted grow
granted-handles (semaphore transactions_pool) k = refl
granted-handles (semaphore ledger_lock) k = refl
granted-handles (semaphore minerwork) k = refl
granted-handles (semaphore pipeclosed) k = refl
granted-handles (semaphore log_lock) k = refl
granted-handles (segment g) k = refl
granted-handles (mapping g) k = refl
granted-handles text_file k = refl
granted-handles header k = refl
granted-handles unmapped_header k = refl
granted-handles pipe_end k = refl
granted-handles queue k = refl
granted-handles queue_attributes k = refl
granted-handles message_buffer k = refl
granted-handles signal_thread k = refl
granted-handles (thread id) k = refl

-- A start goes through, or its last calls return: with cleanup nothing stays open, and without it the
-- process exits with what it has open.
unfoldable pub Tidy : Start → Type 0
Tidy (started w k) = Unit {0}
Tidy (ended o calls k) =
    perform_all k calls ≡ some (if o.cleans then record k { handles = none_set } else k)

pub after_opening-Tidy :
    (leave : Worker → List Call) (answer : Option ℕ) (onward : ℕ → Start) (failed : Start)
    → ((v : ℕ) → Tidy (onward v))
    → (answer ≡ none → Tidy failed)
    → Tidy (after_opening leave answer onward failed)
unfolding after_opening
after_opening-Tidy leave none onward failed good bad = bad refl
after_opening-Tidy leave (some v) onward failed good bad = good v

-- A cleanup that closes all semaphores of certain sets.
pub record Closing (leave : Worker → List Call) (has_log : Bool) (Within : Semaphores → Type 0)
    : Type 0 where
  pub logs : (m : Semaphores) → Within m → has_log ≡ true → m.of_log ≡ true
  pub closes :
      (k : Kernel) (w : Worker)
      → k.handles ≡ w.semaphores
      → Within w.semaphores
      → perform_all k (leave w) ≡ some (record k { handles = none_set })

module _ {leave : Worker → List Call} {has_log : Bool} {Within : Semaphores → Type 0}
    (c : Closing leave has_log Within) where
  -- The openings of a list keep to these sets, and open no semaphore twice.
  pub data Fits : Semaphores → List Opening → Type 0 where
    done : {m : Semaphores} → Fits m []
    next :
        {m : Semaphores} {o : Opening} {rest : List Opening}
        → Reports has_log o.at_once
        → Within m
        → shrink o.resource m ≡ m
        → Fits (grow o.resource m) rest
        → Fits m (o ∷ rest)

  give_up-Tidy :
      (cleans : Bool) (calls : List Call) (w : Worker) (k : Kernel)
      → Reports has_log calls
      → k.handles ≡ w.semaphores
      → Within w.semaphores
      → perform_all k (if cleans then calls ++ leave w else calls)
        ≡ some (if cleans then record k { handles = none_set } else k)
  unfolding perform_all
  give_up-Tidy true calls w k r same within =
      Reports-perform_all k (leave w)
        (λ h. ap (λ (m : Semaphores). m.of_log) same ∙ c.logs _ within h) r
      ∙ c.closes k w same within
  give_up-Tidy false calls w k r same within =
      ap (perform_all k) (sym (append-nil calls))
      ∙ Reports-perform_all k [] (λ h. ap (λ (m : Semaphores). m.of_log) same ∙ c.logs _ within h) r

  ended-Tidy :
      (o : Opening) (w : Worker) (k : Kernel)
      → Reports has_log o.at_once
      → k.handles ≡ w.semaphores
      → Within w.semaphores
      → shrink o.resource w.semaphores ≡ w.semaphores
      → Tidy (ended o (give_up leave o w) k)
  unfolding Tidy give_up
  ended-Tidy o w k r same within kept =
      let e = refused-semaphores o.resource w ∙ kept in
      give_up-Tidy o.cleans o.at_once (refused o.resource w) k r (same ∙ sym e)
        (subst Within (sym e) within)

  pub open_all-Tidy :
      (answers : Resource → Option ℕ) (openings : List Opening) (w : Worker) (k : Kernel)
      → k.handles ≡ w.semaphores
      → Fits w.semaphores openings
      → Tidy (open_all leave answers openings w k)
  unfolding Tidy open_all
  open_all-Tidy answers [] w k same f = tt
  open_all-Tidy answers (o ∷ rest) w k same (next r within kept f) =
      after_opening-Tidy leave (answers o.resource) _ _
        (λ v.
          open_all-Tidy answers rest (opened o.resource v w) (granted o.resource k)
            (granted-handles o.resource k
              ∙ ap (grow o.resource) same
              ∙ sym (opened-semaphores o.resource v w))
            (subst (λ m. Fits m rest) (sym (opened-semaphores o.resource v w)) f))
        (λ e. ended-Tidy o w k r same within kept)
