-- ===== src/Workers/Startup/Closed.antt =====
-- The four processes: what their openings and their cleanups leave open.
use projeto_so.Base.{
  ℕ, zero, suc, ◌≡◌, ◌≢◌, refl, sym, ap, ap₂, subst, ◌∙◌, Bool, true, false, List, [], ◌∷◌, Option,
  none, some,
}
use mathlib.Core.Bool.{false≢true}
use projeto_so.Controller.Cleanup.{log_lock, Semaphores, with_bit, Kernel, Call, log, perform_all}
use projeto_so.Controller.Cleanup.Calls.{none_set, Leads, Leads-perform_all}
use projeto_so.Workers.{
  Worker, miner_cleanup, validator_cleanup, statistics_cleanup, generator_cleanup,
}
use projeto_so.Workers.Closed.{workers-closed, generator_cleanup-Leads}
use projeto_so.Workers.Startup.{
  Resource, semaphore, text_file, Opening, reported, unlogged, left_open, thread_openings,
  miner_later, miner_openings, validator_later, validator_openings, statistics_later,
  statistics_openings, generator_openings, unopened, unopened_generator, opened, granted, open_all,
  miner_start, validator_start, statistics_start, generator_start,
}
use projeto_so.Workers.Startup.Ending.{
  Reports, nothing, line, closing, grow, shrink, Tidy, after_opening-Tidy, Closing, Fits, done,
  next, open_all-Tidy,
}

miner_closing : Closing miner_cleanup true (λ m. m.of_log ≡ true)
miner_closing = record { logs = λ m h e. h; closes = λ k w same h. (workers-closed k w same h).0 }

validator_closing :
    Closing validator_cleanup true
      (λ m. (m.of_log ≡ true) × (m.of_work ≡ false) × (m.of_pipe ≡ false))
validator_closing = record {
  logs = λ m h e. h.0;
  closes = λ k w same (h, work, pipe).
      (workers-closed k w same h).1
      ∙ ap₂ (λ a b. some (record k { handles = record none_set { of_work = a; of_pipe = b } })) work
          pipe;
}

statistics_closing :
    Closing statistics_cleanup true
      (λ m. (m.of_log ≡ true) × (m.of_pool ≡ false) × (m.of_work ≡ false) × (m.of_pipe ≡ false))
statistics_closing = record {
  logs = λ m h e. h.0;
  closes = λ k w same (h, pool, work, pipe).
      (workers-closed k w same h).2
      ∙ ap₂
          (λ a (b : Bool × Bool).
            some (record k {
              handles = record none_set { of_pool = a; of_work = b.0; of_pipe = b.1 };
            }))
          pool (ap₂ (λ a b. (a, b)) work pipe);
}

generator_closes :
    (k : Kernel) (w : Worker)
    → k.handles ≡ w.semaphores
    → w.semaphores.of_log ≡ false
    → w.semaphores.of_ledger ≡ false
    → w.semaphores.of_pipe ≡ false
    → perform_all k (generator_cleanup w) ≡ some (record k { handles = none_set })
generator_closes k w same logs ledger pipe =
    let m = w.semaphores in
    let same_set : record none_set { of_pool = m.of_pool; of_work = m.of_work } ≡ m = sym (
      ap₂ (λ a (b : Bool × Bool). record m { of_ledger = a; of_pipe = b.0; of_log = b.1 }) ledger
        (ap₂ (λ a b. (a, b)) pipe logs)) in
    Leads-perform_all (
      subst (λ k1. Leads k1 (generator_cleanup w) (record k { handles = none_set }))
        (ap (λ h. record k { handles = h }) (same_set ∙ sym same))
        (generator_cleanup-Leads k false false false w m.of_pool m.of_work (sym same_set)))

generator_closing :
    Closing generator_cleanup false
      (λ m. (m.of_log ≡ false) × (m.of_ledger ≡ false) × (m.of_pipe ≡ false))
generator_closing = record {
  logs = λ m h e. absurd (false≢true e);
  closes = λ k w same (logs, ledger, pipe). generator_closes k w same logs ledger pipe;
}

module _ (answers : Resource → Option ℕ) (k : Kernel) (same : k.handles ≡ none_set)
    (logs : answers (semaphore log_lock) ≢ none) (file : answers text_file ≢ none) where
  -- Behind the log's semaphore and the file.
  logged-Tidy :
      {leave : Worker → List Call} {Within : Semaphores → Type 0} (c : Closing leave true Within)
      (x y : List Call) (a b : Bool) (rest : List Opening)
      → Fits c (record none_set { of_log = true }) rest
      → Tidy (
          open_all leave answers
            (record { resource = semaphore log_lock; at_once = x; cleans = a }
              ∷ record { resource = text_file; at_once = y; cleans = b }
              ∷ rest)
            unopened
            k)
  unfolding open_all opened granted unopened with_bit
  logged-Tidy {leave} c x y a b rest fits =
      after_opening-Tidy leave (answers (semaphore log_lock)) _ _
        (λ v.
          after_opening-Tidy leave (answers text_file) _ _
            (λ v2. open_all-Tidy c answers rest _ _ (ap (λ m. with_bit m log_lock true) same) fits)
            (λ g. absurd (file g)))
        (λ g. absurd (logs g))

threads-Fits :
    (id n : ℕ) {m : Semaphores} → m.of_log ≡ true → Fits miner_closing m (thread_openings id n)
unfolding thread_openings left_open grow shrink
threads-Fits id zero h = done
threads-Fits id (suc n) h = next (line refl nothing) h refl (threads-Fits (suc id) n h)

miner-Fits : (n : ℕ) → Fits miner_closing (record none_set { of_log = true }) (miner_later n)
unfolding miner_later reported left_open grow shrink with_bit
miner-Fits n =
    let one : Reports true (log ∷ []) = line refl nothing in
    next one refl refl (
      next one refl refl (
        next one refl refl (
          next one refl refl (
            next one refl refl (
              next one refl refl (
                next (line refl (closing nothing)) refl refl (
                  next one refl refl (
                    next (line refl (closing nothing)) refl refl
                      (next one refl refl (threads-Fits 1 n refl))))))))))

validator-Fits : Fits validator_closing (record none_set { of_log = true }) validator_later
unfolding validator_later reported unlogged grow shrink with_bit
validator-Fits =
    let one : Reports true (log ∷ []) = line refl nothing in
    next one (refl, refl, refl) refl
      (next one (refl, refl, refl) refl
        (next one (refl, refl, refl) refl
          (next one (refl, refl, refl) refl
            (next nothing (refl, refl, refl) refl
              (next one (refl, refl, refl) refl
                (next one (refl, refl, refl) refl (next one (refl, refl, refl) refl done)))))))

statistics-Fits : Fits statistics_closing (record none_set { of_log = true }) statistics_later
unfolding statistics_later reported left_open grow shrink with_bit
statistics-Fits =
    let one : Reports true (log ∷ []) = line refl nothing in
    next one (refl, refl, refl, refl) refl
      (next one (refl, refl, refl, refl) refl
        (next (line refl (closing nothing)) (refl, refl, refl, refl) refl
          (next one (refl, refl, refl, refl) refl
            (next one (refl, refl, refl, refl) refl
              (next one (refl, refl, refl, refl) refl done)))))

generator-Fits : Fits generator_closing none_set generator_openings
unfolding generator_openings unlogged grow shrink with_bit
generator-Fits =
    next nothing (refl, refl, refl) refl
      (next nothing (refl, refl, refl) refl
        (next nothing (refl, refl, refl) refl
          (next nothing (refl, refl, refl) refl
            (next nothing (refl, refl, refl) refl (next nothing (refl, refl, refl) refl done)))))

-- Whatever opening of the miner, the validator, the statistics process or a generator fails at its
-- start, behind the log's semaphore and file, the calls that it makes return: where it calls
-- cleanup no semaphore stays open, and else it exits with those that it has open. Nothing is open
-- at first.
pub start-Tidy :
    (answers : Resource → Option ℕ) (num_miners : ℕ) (k : Kernel)
    → k.handles ≡ none_set
    → answers (semaphore log_lock) ≢ none
    → answers text_file ≢ none
    → Tidy (miner_start answers num_miners k)
      × Tidy (validator_start answers k)
      × Tidy (statistics_start answers k)
      × Tidy (generator_start answers k)
unfolding miner_start validator_start statistics_start generator_start miner_openings
    validator_openings statistics_openings left_open unlogged unopened unopened_generator
start-Tidy answers num_miners k same logs file = (
  logged-Tidy answers k same logs file miner_closing _ _ _ _ _ (miner-Fits num_miners),
  logged-Tidy answers k same logs file validator_closing _ _ _ _ _ validator-Fits,
  logged-Tidy answers k same logs file statistics_closing _ _ _ _ _ statistics-Fits,
  open_all-Tidy generator_closing answers generator_openings _ _ same generator-Fits,
)
