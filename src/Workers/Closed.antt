-- ===== src/Workers/Closed.antt =====
-- What the processes leave open.
use projeto_so.Base.{ℕ, ◌≡◌, refl, sym, ap, subst, ◌∙◌, Bool, true, false, List, [], ◌∷◌, some}
use projeto_so.Controller.Cleanup.{
  Segment, transactions_pool, minerwork, log_lock, Call, close_semaphore, close_queue,
  close_pipe_end, Semaphores, bit, when, in_order, logged, is_open, Kernel, with_bit, perform,
  perform_all,
}
use projeto_so.Controller.Cleanup.Calls.{
  none_set, with_handles, Leads, done, call, then, Leads-perform_all, when-Leads, close_pool,
  close_work, close_ledger, close_pipe,
}
use projeto_so.Workers.{
  Worker, leave_segment, leave_log, miner_cleanup, validator_cleanup, statistics_cleanup,
  generator_cleanup,
}

abbrev without_log : Kernel → Bool → Bool → Bool → Bool → Kernel
without_log k a l w c = record k {
  handles = record { of_pool = a; of_ledger = l; of_work = w; of_pipe = c; of_log = false };
}

module _ (k : Kernel) where
  leave_segment-Leads :
      (a l w c : Bool) (g : Segment) (base : Bool) (fd : ℕ)
      → Leads (with_handles k a l w c) (leave_segment g base fd) (with_handles k a l w c)
  unfolding leave_segment in_order logged perform bit
  leave_segment-Leads a l w c g base fd =
      then (when-Leads (is_open fd) (call refl (call refl done)))
        (then (when-Leads base (call refl (call refl done))) done)

  close_log_lock :
      (a l w c : Bool) (m : Semaphores)
      → m.of_log ≡ true
      → Leads
          (with_handles k a l w c)
          (when (bit m log_lock) (close_semaphore log_lock ∷ []))
          (without_log k a l w c)
  unfolding when perform bit with_bit
  close_log_lock a l w c m logs = rw logs (call refl done)

  module _ (v : Worker) (logs : v.semaphores.of_log ≡ true) (a l w c : Bool) where
    leave_log-Leads : Leads (with_handles k a l w c) (leave_log v) (without_log k a l w c)
    unfolding leave_log in_order perform bit
    leave_log-Leads =
        then (when-Leads v.log_file (call refl done))
          (then (close_log_lock a l w c v.semaphores logs) done)

    close_queue-Leads :
        Leads
          (with_handles k a l w c)
          (when (is_open v.statistics_mq) (logged close_queue))
          (with_handles k a l w c)
    unfolding logged perform bit
    close_queue-Leads = when-Leads (is_open v.statistics_mq) (call refl (call refl done))

    close_pipe_end-Leads :
        Leads
          (with_handles k a l w c)
          (when (is_open v.validation_pipe_fd) (logged close_pipe_end))
          (with_handles k a l w c)
    unfolding logged perform bit
    close_pipe_end-Leads = when-Leads (is_open v.validation_pipe_fd) (call refl (call refl done))

  module _ (v : Worker) (a l w c : Bool)
      (same : v.semaphores
        ≡ record { of_pool = a; of_ledger = l; of_work = w; of_pipe = c; of_log = true }) where
    log_is_open : v.semaphores.of_log ≡ true
    log_is_open = ap (λ (m : Semaphores). m.of_log) same

    miner_cleanup-Leads :
        Leads (with_handles k a l w c) (miner_cleanup v) (without_log k false false false false)
    unfolding miner_cleanup in_order logged perform bit
    miner_cleanup-Leads =
        let m = v.semaphores in
        call refl (
          then (leave_segment-Leads a l w c _ _ _) (
            then (leave_segment-Leads a l w c _ _ _) (
              then (close_pipe_end-Leads v log_is_open a l w c) (
                then (close_pool k a l w c m (ap (λ (m : Semaphores). m.of_pool) same)) (
                  then (close_work k false l w c m (ap (λ (m : Semaphores). m.of_work) same)) (
                    then
                      (close_ledger k false l false c m (ap (λ (m : Semaphores). m.of_ledger) same))
                      (then
                        (close_pipe k false false false c m
                          (ap (λ (m : Semaphores). m.of_pipe) same))
                        (then (leave_log-Leads v log_is_open false false false false) done))))))))

    validator_cleanup-Leads :
        Leads (with_handles k a l w c) (validator_cleanup v) (without_log k false false w c)
    unfolding validator_cleanup in_order logged perform bit
    validator_cleanup-Leads =
        let m = v.semaphores in
        then (close_pool k a l w c m (ap (λ (m : Semaphores). m.of_pool) same)) (
          then (close_ledger k false l w c m (ap (λ (m : Semaphores). m.of_ledger) same)) (
            then (leave_segment-Leads false false w c _ _ _) (
              then (leave_segment-Leads false false w c _ _ _) (
                then (close_pipe_end-Leads v log_is_open false false w c) (
                  call refl (
                    then (close_queue-Leads v log_is_open false false w c)
                      (then (leave_log-Leads v log_is_open false false w c) done)))))))

    statistics_cleanup-Leads :
        Leads (with_handles k a l w c) (statistics_cleanup v) (without_log k a false w c)
    unfolding statistics_cleanup in_order logged perform bit
    statistics_cleanup-Leads =
        let m = v.semaphores in
        then (close_queue-Leads v log_is_open a l w c) (
          then (when-Leads v.counters (call refl done)) (
            then (leave_segment-Leads a l w c _ _ _) (
              then (close_ledger k a l w c m (ap (λ (m : Semaphores). m.of_ledger) same)) (
                then (when-Leads v.log_file (call refl done)) (
                  then (when-Leads v.buffer (call refl done))
                    (call refl (then (close_log_lock a false w c m log_is_open) done)))))))

module _ (k : Kernel) (l c g : Bool) where
  abbrev at_generator : Bool → Bool → Kernel
  at_generator a w = record k {
    handles = record { of_pool = a; of_ledger = l; of_work = w; of_pipe = c; of_log = g };
  }

  close_pool-generator :
      (a w : Bool)
      → Leads
          (at_generator a w)
          (when a (close_semaphore transactions_pool ∷ []))
          (at_generator false w)
  unfolding when perform bit with_bit
  close_pool-generator true w = call refl done
  close_pool-generator false w = done

  close_work-generator :
      (a w : Bool)
      → Leads (at_generator a w) (when w (close_semaphore minerwork ∷ [])) (at_generator a false)
  unfolding when perform bit with_bit
  close_work-generator a true = call refl done
  close_work-generator a false = done

  pub generator_cleanup-Leads :
      (v : Worker) (a w : Bool)
      → v.semaphores ≡ record { of_pool = a; of_ledger = l; of_work = w; of_pipe = c; of_log = g }
      → Leads (at_generator a w) (generator_cleanup v) (at_generator false false)
  unfolding generator_cleanup in_order bit perform
  generator_cleanup-Leads v a w same = simp same (
      then (close_pool-generator a w) (
        then (close_work-generator false w) (
          then
            (when-Leads (is_open v.shm_transactionspool_fd)
              (then (when-Leads v.shm_transactionspool_base (call refl done)) (call refl done)))
            done)))

-- A process with the log's semaphore, as it opened them.
all_but :
    (m : Semaphores)
    → m.of_log ≡ true
    → m ≡ record {
      of_pool = m.of_pool;
      of_ledger = m.of_ledger;
      of_work = m.of_work;
      of_pipe = m.of_pipe;
      of_log = true;
    }
all_but m logs = ap (λ b. record m { of_log = b }) logs

-- Each of the miner, the validator and the statistics process closes in its cleanup all semaphores
-- that it opens, and no line is logged once the log's semaphore is closed, if that one is open at
-- first and the variables of the semaphores tell which are open; a generator, which has no log,
-- closes its two. No other semaphore is touched.
pub workers-closed :
    (k : Kernel) (v : Worker)
    → k.handles ≡ v.semaphores
    → v.semaphores.of_log ≡ true
    → (perform_all k (miner_cleanup v) ≡ some (record k { handles = none_set }))
      × (perform_all k (validator_cleanup v)
          ≡ some (record k {
            handles = record none_set {
              of_work = v.semaphores.of_work;
              of_pipe = v.semaphores.of_pipe;
            };
          }))
      × (perform_all k (statistics_cleanup v)
          ≡ some (record k { handles = record v.semaphores { of_ledger = false; of_log = false } }))
      × (perform_all k (generator_cleanup v)
          ≡ some (record k { handles = record v.semaphores { of_pool = false; of_work = false } }))
workers-closed k v held logs =
    let m = v.semaphores in
    let same = all_but m logs in
    let at : record k { handles = record m { of_log = true } } ≡ k =
      ap (λ h. record k { handles = h }) (sym (held ∙ same)) in
    let from : (calls : List Call) (k2 : Kernel)
        → Leads (record k { handles = record m { of_log = true } }) calls k2
        → perform_all k calls ≡ some k2 =
      λ calls k2 q. Leads-perform_all (subst (λ k1. Leads k1 calls k2) at q) in
    let a = m.of_pool in
    let l = m.of_ledger in
    let w = m.of_work in
    let c = m.of_pipe in
    (
      from _ _ (miner_cleanup-Leads k v a l w c same),
      from _ _ (validator_cleanup-Leads k v a l w c same),
      from _ _ (statistics_cleanup-Leads k v a l w c same),
      Leads-perform_all (
          subst
            (λ k1.
              Leads k1 (generator_cleanup v)
                (record k { handles = record m { of_pool = false; of_work = false } }))
            (ap (λ h. record k { handles = h }) (sym held))
            (generator_cleanup-Leads k l c m.of_log v a w refl)),
    )
