-- ===== src/Shutdown/Guarded.antt =====
-- Where cleanup of src/Controller.c signals the validator.
use projeto_so.Base.{
  ℕ, inl, inr, ◌≡◌, ◌≢◌, refl, ◌==◌, Bool, true, false, ◌&&◌, List, [], ◌∷◌, ◌++◌, arith,
  if◌then◌else◌, and_split, and_join, Bool-cases,
}
use projeto_so.Controller.{Children}
use projeto_so.Controller.Cleanup.{
  Segment, Call, log, terminate_process, wait_process, wait_semaphore, pipeclosed, Process, when,
  in_order, logged, stop_validators, stop_launcher, signal_child, stop_children, release_segment,
  dump, close_opened, close_semaphores, unlink_names, close_log, release, cleanup,
}

-- Behind the calls of the list that signal `pid` stands a wait for the miner.
unfoldable pub guarded : ℕ → List Call → Bool
guarded pid [] = true
guarded pid (wait_semaphore pipeclosed ∷ calls) = true
guarded pid (terminate_process p ∷ calls) = (if p == pid then false else true) && guarded pid calls
guarded pid (_ ∷ calls) = guarded pid calls

guarded-append :
    (pid : ℕ) (xs ys : List Call)
    → guarded pid xs ≡ true
    → guarded pid ys ≡ true
    → guarded pid (xs ++ ys) ≡ true
unfolding guarded
guarded-append pid [] ys e f = f
guarded-append pid (wait_semaphore pipeclosed ∷ xs) ys e f = refl
guarded-append pid (terminate_process p ∷ xs) ys e f =
    let (other, behind) = and_split (if p == pid then false else true) (guarded pid xs) e in
    and_join _ _ other (guarded-append pid xs ys behind f)
guarded-append pid (_ ∷ xs) ys e f = guarded-append pid xs ys e f

guarded-when :
    (pid : ℕ) (b : Bool) (xs : List Call) → guarded pid xs ≡ true → guarded pid (when b xs) ≡ true
unfolding guarded when
guarded-when pid true xs e = e
guarded-when pid false xs e = refl

guarded-terminate : (pid p : ℕ) → p ≢ pid → guarded pid (logged (terminate_process p)) ≡ true
unfolding guarded logged
guarded-terminate pid p other = and_join _ _ (ground (arith, other)) refl

guarded-wait : (pid p : ℕ) → guarded pid (logged (wait_process p)) ≡ true
unfolding guarded logged
guarded-wait pid p = refl

guarded-signal :
    (pid : ℕ) (fails : ℕ → Bool) (p : ℕ) → p ≢ pid → guarded pid (signal_child fails p) ≡ true
unfolding guarded signal_child
guarded-signal pid fails p other =
    and_join _ _ (ground (arith, other)) (guarded-when pid (fails p) (log ∷ []) refl)

-- Lists of calls one after the other.
abbrev AllGuarded : ℕ → List (List Call) → Type 0
AllGuarded pid [] = Unit {0}
AllGuarded pid (xs ∷ rest) = (guarded pid xs ≡ true) × AllGuarded pid rest

guarded-in_order :
    (pid : ℕ) (xss : List (List Call)) → AllGuarded pid xss → guarded pid (in_order xss) ≡ true
unfolding guarded in_order
guarded-in_order pid [] all = refl
guarded-in_order pid (xs ∷ rest) (first, all) =
    guarded-append pid xs (in_order rest) first (guarded-in_order pid rest all)

module _ (pid : ℕ) where
  guarded-release_segment :
      (g : Segment) (base : Bool) (fd : ℕ) → guarded pid (release_segment g base fd) ≡ true
  unfolding guarded release_segment logged
  guarded-release_segment g base fd =
      guarded-in_order pid _ (guarded-when pid base _ refl, (guarded-when pid _ _ refl, (refl, tt)))

  guarded-close_semaphores : (p : Process) → guarded pid (close_semaphores p) ≡ true
  unfolding guarded close_semaphores logged close_opened
  guarded-close_semaphores p = guarded-in_order pid _ (
    guarded-when pid _ _ refl,
    (
      guarded-when pid _ _ refl,
      (guarded-when pid _ _ refl, (guarded-when pid _ _ refl, (guarded-when pid _ _ refl, tt))),
    ),
  )

  guarded-unlink_names : guarded pid unlink_names ≡ true
  unfolding guarded unlink_names in_order logged
  guarded-unlink_names = refl

  guarded-close_log : (p : Process) → guarded pid (close_log p) ≡ true
  unfolding guarded close_log
  guarded-close_log p =
      guarded-in_order pid _ (guarded-when pid _ _ refl, (refl, (guarded-when pid _ _ refl, tt)))

  guarded-stop_validators :
      (c : Children) → c.second ≢ pid → c.third ≢ pid → guarded pid (stop_validators c) ≡ true
  unfolding guarded stop_validators
  guarded-stop_validators c second third = guarded-in_order pid _ (
    refl,
    (
      guarded-when pid _ _ (guarded-terminate pid _ second),
      (
        guarded-when pid _ _ (guarded-terminate pid _ third),
        (
          guarded-when pid _ _ (guarded-wait pid _),
          (guarded-when pid _ _ (guarded-wait pid _), tt),
        ),
      ),
    ),
  )

  guarded-stop_children :
      (fails : ℕ → Bool) (p : Process)
      → p.miner_pid ≢ pid
      → p.statistics_pid ≢ pid
      → guarded pid (stop_children fails p) ≡ true
  unfolding guarded stop_children
  guarded-stop_children fails p miner statistics = guarded-in_order pid _ (
    refl,
    (
      guarded-when pid _ _ (guarded-signal pid fails _ miner),
      (
        guarded-when pid _ _ refl,
        (
          guarded-when pid _ _ (guarded-signal pid fails _ statistics),
          (
            refl,
            (
              guarded-when pid _ _ (guarded-wait pid _),
              (
                guarded-when pid _ _ (guarded-wait pid _),
                (guarded-when pid _ _ (guarded-wait pid _), tt),
              ),
            ),
          ),
        ),
      ),
    ),
  )

  guarded-release :
      (fails : ℕ → Bool) (p : Process)
      → p.validators.second ≢ pid
      → p.validators.third ≢ pid
      → p.miner_pid ≢ pid
      → p.statistics_pid ≢ pid
      → guarded pid (release fails p) ≡ true
  unfolding guarded release dump stop_launcher
  guarded-release fails p second third miner statistics = guarded-in_order pid _ (
    refl,
    (
      guarded-stop_validators p.validators second third,
      (
        guarded-when pid _ _ refl,
        (
          guarded-stop_children fails p miner statistics,
          (
            guarded-release_segment _ _ _,
            (
              refl,
              (
                guarded-release_segment _ _ _,
                (
                  refl,
                  (guarded-close_semaphores p, (guarded-unlink_names, (guarded-close_log p, tt))),
                ),
              ),
            ),
          ),
        ),
      ),
    ),
  )

  pub guarded-cleanup :
      (fails : ℕ → Bool) (p : Process)
      → p.validators.second ≢ pid
      → p.validators.third ≢ pid
      → p.miner_pid ≢ pid
      → p.statistics_pid ≢ pid
      → guarded pid (cleanup fails p).0 ≡ true
  unfolding guarded cleanup
  guarded-cleanup fails p second third miner statistics = elim (Bool-cases p.cleanup_called) [
    | inl again ↦ simp again refl
    | inr first ↦ simp first (guarded-release fails p second third miner statistics)
  ]
