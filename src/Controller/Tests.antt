-- ===== src/Controller/Tests.antt =====
-- Examples for the extra validators of src/Controller.c.
use projeto_so.Base.{arith, ℕ, Option, none, some, ◌≡◌, refl, true, false, [], ◌∷◌, minus_one}
use projeto_so.Floats.{round_half_even}
use projeto_so.Controller.{
  occupancy, at_least_60, above_80, below_40, Children, Events, launch, adjust, Moment,
}
use projeto_so.Controller.Config.{int_to_size, accepts_config, values, parse_config}
use projeto_so.Controller.Config.Printed.{print_config, parse_config-printed}
use projeto_so.Controller.Cleanup.{
  Semaphores, ledger_lock, log, wait_semaphore, post_semaphore, Process, cleanup, Kernel,
  perform_all, with_bit,
}
use projeto_so.Controller.Cleanup.Calls.{none_set, nothing_held, StopsAt}
use projeto_so.Controller.Cleanup.Released.{cleanup-released, cleanup-null_ledger}
use projeto_so.Controller.Startup.{
  Step, open_semaphore, open_queue, steps, initial, succeed, fail, hold, gave_up, after_step,
  start_up,
}
use projeto_so.Controller.Ending.{after_main, after_main-start_up}
use projeto_so.Samples.Controllers.{three_children}
use projeto_so.Controller.Launcher.{Accounted, adjust-Accounted}

-- 3/5, 4/5 and 2/5 as floats: 4/5 is above the double 0.8.
levels :
    (at_least_60 (occupancy 30 50) ≡ true)
    × (at_least_60 (occupancy 29 50) ≡ false)
    × (above_80 (occupancy 40 50) ≡ true)
    × (above_80 (occupancy 39 50) ≡ false)
    × (below_40 (occupancy 20 50) ≡ false)
    × (below_40 (occupancy 19 50) ≡ true)
unfolding occupancy at_least_60 above_80 below_40 round_half_even
levels = (refl, refl, refl, refl, refl, refl)

abbrev no_memory : Events
no_memory = record { forked = minus_one; killed = true; ended = false; reaped = false }

abbrev plain : Events
plain = record { forked = 77; killed = true; ended = true; reaped = false }

abbrev none_yet : Children
none_yet = record { second = 0; third = 0 }

adjust-Accounted_example :
    Accounted plain 0 (adjust (occupancy 30 50) plain plain none_yet).second
    × Accounted plain 0 (adjust (occupancy 30 50) plain plain none_yet).third
adjust-Accounted_example = adjust-Accounted (occupancy 30 50) plain plain none_yet

abbrev lost_second : Children
lost_second = record { second = minus_one; third = 0 }

-- The array after a fork that failed at 60%.
second_lost : adjust (occupancy 30 50) no_memory plain none_yet ≡ lost_second
unfolding adjust occupancy at_least_60 above_80 launch round_half_even
second_lost = refl

abbrev busy : Moment
busy = record { ledger_count = 1; pool_count = 45; for_second = plain; for_third = plain }

abbrev calm : Moment
calm = record { ledger_count = 2; pool_count = 5; for_second = plain; for_third = plain }

-- The file config.cfg.
parse_config-printed_example :
    parse_config (print_config 5 50 10 50000) ≡ values (5 ∷ 50 ∷ 10 ∷ 50000 ∷ [])
parse_config-printed_example =
    parse_config-printed 5 50 10 50000 (omega arith) (omega arith) (omega arith) (omega arith)

-- -1 as TRANSACTIONS_PER_BLOCK, to which 4294967295 is read, is a large size_t.
wrapped_accepted : (accepts_config 5 50 minus_one 2 ≡ true) × (accepts_config 5 50 0 2 ≡ false)
unfolding accepts_config int_to_size
wrapped_accepted = (refl, refl)

abbrev all_set : Semaphores
all_set = record { of_pool = true; of_ledger = true; of_work = true; of_pipe = true; of_log = true }

abbrev all_held : Kernel
all_held = record {
  handles = all_set;
  named = all_set;
  pool_named = true;
  ledger_named = true;
  pipe_named = true;
  queue_named = true;
}

cleanup-released_example :
    perform_all all_held (cleanup (λ pid. false) three_children).0 ≡ some nothing_held
cleanup-released_example =
    cleanup-released (λ pid. false) three_children all_held refl refl refl refl (λ h. refl)

-- The semaphore of the ledger cannot be opened.
abbrev two_set : Semaphores
two_set = record none_set { of_pool = true; of_log = true }

abbrev no_ledger : Process
no_ledger = record three_children {
  miner_pid = 0;
  validator_pid = 0;
  statistics_pid = 0;
  shm_transactionspool_base = false;
  shm_transactionspool_fd = 0;
  shm_ledger_base = false;
  shm_ledger_fd = 0;
  semaphores = two_set;
  statistics_mq = 0;
}

abbrev two_held : Kernel
two_held = record nothing_held { handles = two_set; named = two_set }

abbrev without_ledger : Step → Option ℕ
without_ledger (open_semaphore ledger_lock) = none
without_ledger _ = some 3

ledger_refused : start_up without_ledger steps initial nothing_held ≡ gave_up no_ledger two_held
unfolding start_up steps initial after_step succeed fail hold with_bit
ledger_refused = refl

cleanup-null_ledger_example :
    StopsAt two_held
      (cleanup (λ pid. false) no_ledger).0
      (wait_semaphore ledger_lock)
      (log ∷ post_semaphore ledger_lock ∷ [])
cleanup-null_ledger_example =
    cleanup-null_ledger (λ pid. false) no_ledger two_held refl refl refl refl (λ h. cc h)

-- mq_open fails.
abbrev without_queue : Step → Option ℕ
without_queue open_queue = none
without_queue _ = some 3

abbrev no_queue : Process
no_queue = record three_children {
  miner_pid = 0;
  validator_pid = 0;
  statistics_pid = 0;
  shm_transactionspool_fd = 3;
  shm_ledger_fd = 3;
  statistics_mq = minus_one;
}

abbrev held_before_queue : Kernel
held_before_queue = record all_held { queue_named = false }

queue_refused :
    start_up without_queue steps initial nothing_held ≡ gave_up no_queue held_before_queue
unfolding start_up steps initial after_step succeed fail hold with_bit
queue_refused = refl

after_main-start_up_example :
    after_main (λ pid. false) (start_up without_queue steps initial nothing_held)
    ≡ some nothing_held
after_main-start_up_example =
    after_main-start_up (λ pid. false) without_queue (λ e. cc e) (λ e. cc e) (λ e. cc e)
