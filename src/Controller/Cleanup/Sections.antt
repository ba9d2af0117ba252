-- ===== src/Controller/Cleanup/Sections.antt =====
-- The parts of cleanup of src/Controller.c, each with what it leaves behind.
use projeto_so.Base.{ℕ, ◌≡◌, refl, sym, subst, Bool, true, false, List, ◌∷◌, ltb_int}
use projeto_so.Controller.{Children}
use projeto_so.Controller.Cleanup.Calls.{
  none_set, with_handles, Leads, done, call, then, when-Leads, close_pool, close_work, close_ledger,
  close_pipe,
}
use projeto_so.Controller.Cleanup.{
  pipeclosed, Segment, Call, wait_semaphore, bit, Process, when, in_order, logged, stop_validators,
  stop_launcher, signal_child, stop_children, is_open, release_segment, dump, close_semaphores,
  unlink_names, close_log, Kernel, with_bit, perform, pool_segment, ledger_segment, unlink_segment,
  terminate_process, wait_process,
}

module _ (k : Kernel) (a l w c : Bool) where
  abbrev now : Kernel
  now = with_handles k a l w c

  terminate : (pid : ℕ) → Leads now (logged (terminate_process pid)) now
  unfolding logged perform bit
  terminate pid = call refl (call refl done)

  wait : (pid : ℕ) → Leads now (logged (wait_process pid)) now
  unfolding logged perform bit
  wait pid = call refl (call refl done)

  pub stop_validators-Leads : (v : Children) → Leads now (stop_validators v) now
  unfolding stop_validators in_order perform bit
  stop_validators-Leads v =
      let second = ltb_int 0 v.second in
      let third = ltb_int 0 v.third in
      call refl (
        then (when-Leads second (terminate v.second)) (
          then (when-Leads third (terminate v.third)) (
            then (when-Leads second (wait v.second))
              (then (when-Leads third (wait v.third)) done))))

  pub stop_launcher-Leads : (p : Process) → Leads now (stop_launcher p) now
  unfolding stop_launcher perform bit
  stop_launcher-Leads p =
      when-Leads p.validator_thread_created (call refl (call refl (call refl done)))

  signal_child-Leads : (fails : ℕ → Bool) (pid : ℕ) → Leads now (signal_child fails pid) now
  unfolding signal_child perform bit
  signal_child-Leads fails pid = call refl (call refl (when-Leads (fails pid) (call refl done)))

  wait_pipe-Leads :
      (v : Bool) {calls : List Call}
      → (v ≡ true → c ≡ true)
      → Leads now calls now
      → Leads now (when v (wait_semaphore pipeclosed ∷ calls)) now
  unfolding when perform bit
  wait_pipe-Leads true opened q = call (rw (opened refl) refl) q
  wait_pipe-Leads false opened q = done

  pub stop_children-Leads :
      (fails : ℕ → Bool) (p : Process)
      → (ltb_int 0 p.validator_pid ≡ true → c ≡ true)
      → Leads now (stop_children fails p) now
  unfolding stop_children in_order perform bit
  stop_children-Leads fails p opened =
      let m = ltb_int 0 p.miner_pid in
      let v = ltb_int 0 p.validator_pid in
      let s = ltb_int 0 p.statistics_pid in
      call refl (
        then (when-Leads m (signal_child-Leads fails p.miner_pid)) (
          then (wait_pipe-Leads v opened (signal_child-Leads fails p.validator_pid)) (
            then (when-Leads s (signal_child-Leads fails p.statistics_pid)) (
              call refl (
                then (when-Leads m (wait p.miner_pid)) (
                  then (when-Leads v (wait p.validator_pid))
                    (then (when-Leads s (wait p.statistics_pid)) done)))))))

-- The kernel without the name of a segment.
abbrev pub without_segment : Segment → Kernel → Kernel
without_segment pool_segment k = record k { pool_named = false }
without_segment ledger_segment k = record k { ledger_named = false }

module _ (k : Kernel) (a l w c : Bool) where
  pub release_segment-Leads :
      (g : Segment) (base : Bool) (fd : ℕ)
      → Leads
          (with_handles k a l w c)
          (release_segment g base fd)
          (with_handles (without_segment g k) a l w c)
  unfolding release_segment in_order logged perform bit
  release_segment-Leads g base fd =
      then (when-Leads base (call refl (call refl done)))
        (then (when-Leads (is_open fd) (call refl (call refl done))) (then (unlinked g) done))
    where
      unlinked :
          (g : Segment)
          → Leads
              (with_handles k a l w c)
              (logged (unlink_segment g))
              (with_handles (without_segment g k) a l w c)
      unlinked pool_segment = call refl (call refl done)
      unlinked ledger_segment = call refl (call refl done)

  pub dump-Leads : Leads (with_handles k a true w c) dump (with_handles k a true w c)
  unfolding dump perform bit
  dump-Leads = call refl (call refl (call refl (call refl done)))

module _ (k : Kernel) where
  pub close_semaphores-Leads :
      (p : Process)
      → p.semaphores.of_log ≡ true
      → Leads
          (record k { handles = p.semaphores })
          (close_semaphores p)
          (with_handles k false false false false)
  unfolding close_semaphores in_order logged perform bit
  close_semaphores-Leads p logs =
      let m = p.semaphores in
      subst
        (λ b.
          Leads
            (record k {
              handles = record {
                of_pool = m.of_pool;
                of_ledger = m.of_ledger;
                of_work = m.of_work;
                of_pipe = m.of_pipe;
                of_log = b;
              };
            })
            (close_semaphores p) (with_handles k false false false false))
        (sym logs)
        (then (close_pool k m.of_pool m.of_ledger m.of_work m.of_pipe m refl) (
          then (close_work k false m.of_ledger m.of_work m.of_pipe m refl) (
            then (close_ledger k false m.of_ledger false m.of_pipe m refl) (
              then (close_pipe k false false false m.of_pipe m refl)
                (then (when-Leads (is_open p.statistics_mq) (call refl (call refl done))) done)))))

  pub unlink_names-Leads : Leads (with_handles k false false false false) unlink_names (
      with_handles
        (record k {
          named = record none_set { of_log = k.named.of_log };
          pipe_named = false;
          queue_named = false;
        })
        false
        false
        false
        false)
  unfolding unlink_names in_order logged perform bit with_bit
  unlink_names-Leads = call refl (
      call refl (
        call refl (
          call refl (
            call refl (
              call refl
                (call refl (call refl (call refl (call refl (call refl (call refl done)))))))))))

  pub close_log-Leads :
      (p : Process)
      → p.semaphores.of_log ≡ true
      → Leads
          (with_handles k false false false false)
          (close_log p)
          (record k { handles = none_set; named = record k.named { of_log = false } })
  unfolding close_log in_order when perform bit with_bit
  close_log-Leads p logs = rw logs (
      call refl
        (call refl (call refl (call refl (then (when-Leads p.log_file (call refl done)) done)))))
