-- ===== src/Controller/Cleanup/Released.antt =====
-- What cleanup of src/Controller.c leaves behind.
use projeto_so.Base.{ℕ, ◌≡◌, refl, sym, ap, subst, ◌∙◌, Bool, true, false, [], ◌∷◌, ltb_int, some}
use mathlib.Core.Option.{bind}
use projeto_so.Controller.Cleanup.Calls.{
  none_set, nothing_held, with_handles, Leads, done, call, then, StopsAt, then-StopsAt,
  Leads-perform_all,
}
use projeto_so.Controller.Cleanup.{
  bit, Process, in_order, dump, close_semaphores, release, cleanup, Kernel, perform, perform_all,
  pool_segment, ledger_segment, ledger_lock, log, wait_semaphore, post_semaphore,
}
use projeto_so.Controller.Cleanup.Sections.{
  stop_validators-Leads, stop_launcher-Leads, stop_children-Leads, without_segment,
  release_segment-Leads, dump-Leads, close_semaphores-Leads, unlink_names-Leads, close_log-Leads,
}

module _ (kill_fails : ℕ → Bool) (p : Process) (k : Kernel) where
  release-Leads :
      p.semaphores.of_log ≡ true
      → p.semaphores.of_ledger ≡ true
      → (ltb_int 0 p.validator_pid ≡ true → p.semaphores.of_pipe ≡ true)
      → Leads (record k { handles = p.semaphores }) (release kill_fails p) nothing_held
  unfolding release in_order perform bit
  release-Leads logs ledger pipe =
      let m = p.semaphores in
      let a = m.of_pool in
      let w = m.of_work in
      let c = m.of_pipe in
      let k1 = without_segment pool_segment k in
      let k2 = without_segment ledger_segment k1 in
      let k3 = record k2 {
        named = record none_set { of_log = k.named.of_log };
        pipe_named = false;
        queue_named = false;
      } in
      let same : m
          ≡ record { of_pool = a; of_ledger = true; of_work = w; of_pipe = c; of_log = true } =
        ap (λ l. record m { of_ledger = l }) ledger
        ∙ ap (λ g. record m { of_ledger = true; of_log = g }) logs in
      subst (λ h. Leads (record k { handles = h }) (release kill_fails p) nothing_held) (sym same)
        (call refl (
          then (stop_validators-Leads k a true w c p.validators) (
            then (stop_launcher-Leads k a true w c p) (
              then (stop_children-Leads k a true w c kill_fails p pipe) (
                then
                  (release_segment-Leads k a true w c pool_segment p.shm_transactionspool_base
                    p.shm_transactionspool_fd)
                  (then (dump-Leads k1 a true w c) (
                    then
                      (release_segment-Leads k1 a true w c ledger_segment p.shm_ledger_base
                        p.shm_ledger_fd)
                      (call refl (
                        then
                          (subst
                            (λ h.
                              Leads (record k2 { handles = h }) (close_semaphores p)
                                (with_handles k2 false false false false))
                            same (close_semaphores-Leads k2 p logs))
                          (then (unlink_names-Leads k2)
                            (then (close_log-Leads k3 p logs) done)))))))))))

  -- The first cleanup of the controller uses no semaphore that is not open, and it leaves no
  -- semaphore open and no name of a semaphore, a segment, the pipe or the queue, if the semaphores
  -- of the log and of the ledger are open, and that of the closed pipe where a validator runs, and
  -- the variables of the semaphores tell which are open.
  pub cleanup-released :
      k.handles ≡ p.semaphores
      → p.cleanup_called ≡ false
      → p.semaphores.of_log ≡ true
      → p.semaphores.of_ledger ≡ true
      → (ltb_int 0 p.validator_pid ≡ true → p.semaphores.of_pipe ≡ true)
      → perform_all k (cleanup kill_fails p).0 ≡ some nothing_held
  unfolding cleanup perform bit
  cleanup-released same first logs ledger pipe = simp first (
      Leads-perform_all (
        call refl (
          subst (λ h. Leads (record k { handles = h }) (release kill_fails p) nothing_held)
            (sym same) (release-Leads logs ledger pipe))))

  release-StopsAt :
      p.semaphores.of_log ≡ true
      → p.semaphores.of_ledger ≡ false
      → (ltb_int 0 p.validator_pid ≡ true → p.semaphores.of_pipe ≡ true)
      → StopsAt
          (record k { handles = p.semaphores })
          (release kill_fails p)
          (wait_semaphore ledger_lock)
          (log ∷ post_semaphore ledger_lock ∷ [])
  unfolding release in_order dump perform_all perform bit bind
  release-StopsAt logs ledger pipe =
      let m = p.semaphores in
      let a = m.of_pool in
      let w = m.of_work in
      let c = m.of_pipe in
      let same : m
          ≡ record { of_pool = a; of_ledger = false; of_work = w; of_pipe = c; of_log = true } =
        ap (λ l. record m { of_ledger = l }) ledger
        ∙ ap (λ g. record m { of_ledger = false; of_log = g }) logs in
      subst
        (λ h.
          StopsAt (record k { handles = h }) (release kill_fails p) (wait_semaphore ledger_lock)
            (log ∷ post_semaphore ledger_lock ∷ []))
        (sym same)
        (then-StopsAt (call refl done) (
          then-StopsAt (stop_validators-Leads k a false w c p.validators) (
            then-StopsAt (stop_launcher-Leads k a false w c p) (
              then-StopsAt (stop_children-Leads k a false w c kill_fails p pipe) (
                then-StopsAt
                  (release_segment-Leads k a false w c pool_segment p.shm_transactionspool_base
                    p.shm_transactionspool_fd)
                  (record {
                    before = log ∷ [];
                    rest = _;
                    reached = _;
                    split = refl;
                    returned = refl;
                    stopped = refl;
                  }))))))

  -- Where the semaphore of the ledger is not open, the first cleanup comes to the wait on it that
  -- stands right before the dump of the ledger, and that call does not return, if the semaphore of
  -- the log is open, and that of the closed pipe where a validator runs, and the variables of the
  -- semaphores tell which are open.
  pub cleanup-null_ledger :
      k.handles ≡ p.semaphores
      → p.cleanup_called ≡ false
      → p.semaphores.of_log ≡ true
      → p.semaphores.of_ledger ≡ false
      → (ltb_int 0 p.validator_pid ≡ true → p.semaphores.of_pipe ≡ true)
      → StopsAt k
          (cleanup kill_fails p).0
          (wait_semaphore ledger_lock)
          (log ∷ post_semaphore ledger_lock ∷ [])
  unfolding cleanup perform bit
  cleanup-null_ledger same first logs ledger pipe = simp first (
      then-StopsAt (call refl done) (
        subst
          (λ h.
            StopsAt (record k { handles = h }) (release kill_fails p) (wait_semaphore ledger_lock)
              (log ∷ post_semaphore ledger_lock ∷ []))
          (sym same) (release-StopsAt logs ledger pipe)))
