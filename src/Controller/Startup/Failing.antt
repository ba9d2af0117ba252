-- ===== src/Controller/Startup/Failing.antt =====
-- What is left when main of src/Controller.c gives up.
use projeto_so.Base.{
  ℕ, ◌≡◌, ◌≢◌, refl, Bool, true, false, ◌&&◌, List, [], ◌∷◌, Option, none, some, and_split,
}
use projeto_so.Controller.Cleanup.{
  Semaphores, pool_segment, ledger_segment, log_lock, ledger_lock, transactions_pool, Process,
  Kernel, cleanup, with_bit, perform_all,
}
use projeto_so.Controller.Cleanup.Calls.{nothing_held}
use projeto_so.Controller.Cleanup.Released.{cleanup-released}
use projeto_so.Controller.Startup.{
  miner, validator, statistics, Step, open_semaphore, open_segment, resize_segment, map_segment,
  make_pipe, open_queue, start_child, start_launcher, steps, initial, with_pid, succeed, fail, hold,
  MainState, running, gave_up, after_step, start_up,
}

module _ (kill_fails : ℕ → Bool) where
  -- The semaphores are open.
  pub record Opened (handles semaphores : Semaphores) (called : Bool) : Type 0 where
    pub same : handles ≡ semaphores
    pub first : called ≡ false
    pub logs : semaphores.of_log ≡ true
    pub ledger : semaphores.of_ledger ≡ true
    pub pipe : semaphores.of_pipe ≡ true

  abbrev pub AllOpened : Process → Kernel → Type 0
  AllOpened p k = Opened k.handles p.semaphores p.cleanup_called

  abbrev pub Released : MainState → Type 0
  Released (running p k) = AllOpened p k
  Released (gave_up p k) = perform_all k (cleanup kill_fails p).0 ≡ some nothing_held

  after_step-Released :
      (o : Option ℕ) (next : ℕ → MainState) (failed : MainState)
      → ((v : ℕ) → Released (next v))
      → (o ≡ none → Released failed)
      → Released (after_step o next failed)
  unfolding after_step
  after_step-Released none next failed good bad = bad refl
  after_step-Released (some v) next failed good bad = good v

  start_up-Released :
      (answers : Step → Option ℕ) (s : Step) (rest : List Step) (p : Process) (k : Kernel)
      → ((v : ℕ) → Released (start_up answers rest (succeed s v p) (hold s k)))
      → (answers s ≡ none → Released (gave_up (fail s p) k))
      → Released (start_up answers (s ∷ rest) p k)
  unfolding start_up
  start_up-Released answers s rest p k good bad = after_step-Released (answers s) _ _ good bad

  pub AllOpened-Released : (p : Process) (k : Kernel) → AllOpened p k → Released (gave_up p k)
  AllOpened-Released p k v =
      cleanup-released kill_fails p k v.same v.first v.logs v.ledger (λ h. v.pipe)

  abbrev is_later : Step → Bool
  is_later (open_semaphore s) = false
  is_later _ = true

  abbrev all_later : List Step → Bool
  all_later [] = true
  all_later (s ∷ rest) = is_later s && all_later rest

  AllOpened-succeed :
      (s : Step) (v : ℕ) (p : Process) (k : Kernel)
      → is_later s ≡ true
      → AllOpened p k
      → AllOpened (succeed s v p) (hold s k)
  unfolding succeed hold with_pid
  AllOpened-succeed (open_semaphore s) v p k h o = cc h
  AllOpened-succeed (open_segment pool_segment) v p k h o = o
  AllOpened-succeed (open_segment ledger_segment) v p k h o = o
  AllOpened-succeed (resize_segment g) v p k h o = o
  AllOpened-succeed (map_segment pool_segment) v p k h o = o
  AllOpened-succeed (map_segment ledger_segment) v p k h o = o
  AllOpened-succeed make_pipe v p k h o = o
  AllOpened-succeed open_queue v p k h o = o
  AllOpened-succeed (start_child miner) v p k h o = o
  AllOpened-succeed (start_child validator) v p k h o = o
  AllOpened-succeed (start_child statistics) v p k h o = o
  AllOpened-succeed start_launcher v p k h o = o

  AllOpened-fail :
      (s : Step) (p : Process) (k : Kernel)
      → is_later s ≡ true
      → AllOpened p k
      → AllOpened (fail s p) k
  unfolding fail with_pid
  AllOpened-fail (open_semaphore s) p k h o = cc h
  AllOpened-fail (open_segment pool_segment) p k h o = o
  AllOpened-fail (open_segment ledger_segment) p k h o = o
  AllOpened-fail (resize_segment g) p k h o = o
  AllOpened-fail (map_segment pool_segment) p k h o = o
  AllOpened-fail (map_segment ledger_segment) p k h o = o
  AllOpened-fail make_pipe p k h o = o
  AllOpened-fail open_queue p k h o = o
  AllOpened-fail (start_child miner) p k h o = o
  AllOpened-fail (start_child validator) p k h o = o
  AllOpened-fail (start_child statistics) p k h o = o
  AllOpened-fail start_launcher p k h o = o

  later-Released :
      (answers : Step → Option ℕ) (rest : List Step) (p : Process) (k : Kernel)
      → all_later rest ≡ true
      → AllOpened p k
      → Released (start_up answers rest p k)
  unfolding start_up
  later-Released answers [] p k h o = o
  later-Released answers (s ∷ rest) p k h o =
      let (one, others) = and_split (is_later s) (all_later rest) h in
      start_up-Released answers s rest p k
        (λ v.
          later-Released answers rest (succeed s v p) (hold s k) others
            (AllOpened-succeed s v p k one o))
        (λ e. AllOpened-Released (fail s p) k (AllOpened-fail s p k one o))

  no_validator :
      (p : Process) (k : Kernel)
      → k.handles ≡ p.semaphores
      → p.cleanup_called ≡ false
      → p.semaphores.of_log ≡ true
      → p.semaphores.of_ledger ≡ true
      → p.validator_pid ≡ 0
      → Released (gave_up p k)
  no_validator p k same first logs ledger none_yet =
      cleanup-released kill_fails p k same first logs ledger (λ h. cc (h, none_yet))

  pub steps-Released :
      (answers : Step → Option ℕ)
      → answers (open_semaphore log_lock) ≢ none
      → answers (open_semaphore transactions_pool) ≢ none
      → answers (open_semaphore ledger_lock) ≢ none
      → Released (start_up answers steps initial nothing_held)
  unfolding steps initial succeed hold fail with_bit
  steps-Released answers logs pool ledger =
      start_up-Released answers _ _ _ _
        (λ v.
          start_up-Released answers _ _ _ _
            (λ v2.
              start_up-Released answers _ _ _ _
                (λ v3.
                  start_up-Released answers _ _ _ _
                    (λ v4.
                      start_up-Released answers _ _ _ _
                        (λ v5. later-Released answers _ _ _ refl record {
                          same = refl;
                          first = refl;
                          logs = refl;
                          ledger = refl;
                          pipe = refl;
                        })
                        (λ e. no_validator _ _ refl refl refl refl refl))
                    (λ e. no_validator _ _ refl refl refl refl refl))
                (λ e. absurd (ledger e)))
            (λ e. absurd (pool e)))
        (λ e. absurd (logs e))
