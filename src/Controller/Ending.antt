-- ===== src/Controller/Ending.antt =====
-- src/Controller.c: the end of main, behind its start: it waits for the launcher of validators and for
-- the processes, and calls cleanup.
use projeto_so.Base.{
  ℕ, ◌≡◌, refl, ap, ◌∙◌, Bool, true, List, [], ◌∷◌, ◌++◌, Option, none, some, ltb_int, ◌≢◌,
}
use mathlib.Core.Option.{bind}
use projeto_so.Controller.Cleanup.{
  Semaphores, Call, join_launcher, wait_process, log_lock, ledger_lock, transactions_pool, when,
  in_order, logged, Process, Kernel, cleanup, perform, perform_all, bit,
}
use projeto_so.Controller.Cleanup.Calls.{nothing_held, Leads, done, call, then, when-Leads}
use projeto_so.Controller.Startup.{
  Step, open_semaphore, steps, initial, MainState, running, gave_up, start_up,
}
use projeto_so.Controller.Startup.Failing.{steps-Released, Released, AllOpened-Released}

-- Whichever way a process has ended there is one line.
unfoldable pub wait_children : Process → List Call
wait_children p = in_order (
    (join_launcher ∷ [])
    ∷ when (ltb_int 0 p.validators.second) (logged (wait_process p.validators.second))
    ∷ when (ltb_int 0 p.validators.third) (logged (wait_process p.validators.third))
    ∷ logged (wait_process p.miner_pid)
    ∷ logged (wait_process p.validator_pid)
    ∷ logged (wait_process p.statistics_pid)
    ∷ [])

unfoldable pub main_end : (ℕ → Bool) → Process → List Call
main_end kill_fails p = wait_children p ++ (cleanup kill_fails p).0

-- What the system holds when main ends, or has given up.
unfoldable pub after_main : (ℕ → Bool) → MainState → Option Kernel
after_main kill_fails (running p k) = perform_all k (main_end kill_fails p)
after_main kill_fails (gave_up p k) = perform_all k (cleanup kill_fails p).0

Leads-append :
    {k k2 : Kernel} {xs : List Call} (ys : List Call)
    → Leads k xs k2
    → perform_all k (xs ++ ys) ≡ perform_all k2 ys
unfolding perform_all bind
Leads-append ys done = refl
Leads-append {xs = x ∷ xs} ys (call e q) =
    ap (λ o. bind o (λ k3. perform_all k3 (xs ++ ys))) e ∙ Leads-append ys q

module _ (k : Kernel) (p : Process) (logs : k.handles.of_log ≡ true) where
  wait-Leads : (pid : ℕ) → Leads k (logged (wait_process pid)) k
  unfolding logged perform bit
  wait-Leads pid = call refl (call (rw logs refl) done)

  wait_children-Leads : Leads k (wait_children p) k
  unfolding wait_children in_order perform
  wait_children-Leads = call refl (
      then (when-Leads _ (wait-Leads p.validators.second)) (
        then (when-Leads _ (wait-Leads p.validators.third)) (
          then (wait-Leads p.miner_pid)
            (then (wait-Leads p.validator_pid) (then (wait-Leads p.statistics_pid) done)))))

Released-after_main :
    (kill_fails : ℕ → Bool) (s : MainState)
    → Released kill_fails s
    → after_main kill_fails s ≡ some nothing_held
unfolding after_main main_end
Released-after_main kill_fails (running p k) v =
    let held = ap (λ (m : Semaphores). m.of_log) v.same ∙ v.logs in
    Leads-append _ (wait_children-Leads k p held) ∙ AllOpened-Released kill_fails p k v
Released-after_main kill_fails (gave_up p k) e = e

-- Where main can open the first three semaphores, whatever step of its start fails, or none, its
-- calls use no semaphore that is not open and at its end no semaphore is open and no name is left:
-- if it gives up these are those of cleanup, and else the waits for its thread and its processes in
-- front of them.
pub after_main-start_up :
    (kill_fails : ℕ → Bool) (answers : Step → Option ℕ)
    → answers (open_semaphore log_lock) ≢ none
    → answers (open_semaphore transactions_pool) ≢ none
    → answers (open_semaphore ledger_lock) ≢ none
    → after_main kill_fails (start_up answers steps initial nothing_held) ≡ some nothing_held
after_main-start_up kill_fails answers logs pool ledger =
    Released-after_main kill_fails (start_up answers steps initial nothing_held)
      (steps-Released kill_fails answers logs pool ledger)
