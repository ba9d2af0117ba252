-- ===== src/Workers/Tests.antt =====
-- Examples for the processes' cleanups.
use projeto_so.Base.{ℕ, ◌≡◌, refl, Option, true, false, none, some}
use projeto_so.Controller.Cleanup.{Kernel, perform_all}
use projeto_so.Controller.Cleanup.Calls.{none_set, nothing_held}
use projeto_so.Samples.Controllers.{three_children}
use projeto_so.Workers.{
  Worker, miner_cleanup, validator_cleanup, statistics_cleanup, generator_cleanup,
}
use projeto_so.Workers.Startup.{
  Resource, queue, miner_start, validator_start, statistics_start, generator_start,
}
use projeto_so.Workers.Startup.Ending.{Tidy}
use projeto_so.Workers.Startup.Closed.{start-Tidy}
use projeto_so.Workers.Closed.{workers-closed}

-- The semaphores that a miner opens are those of the controller.
abbrev all_opened : Worker
all_opened = record {
  shm_transactionspool_base = true;
  shm_transactionspool_fd = 4;
  shm_ledger_base = true;
  shm_ledger_fd = 5;
  semaphores = three_children.semaphores;
  validation_pipe_fd = 7;
  statistics_mq = 6;
  counters = true;
  buffer = true;
  log_file = true;
}

abbrev held : Kernel
held = record nothing_held { handles = three_children.semaphores; pipe_named = true }

workers-closed_example :
    (perform_all held (miner_cleanup all_opened) ≡ some (record held { handles = none_set }))
    × (perform_all held (validator_cleanup all_opened)
        ≡ some (record held { handles = record none_set { of_work = true; of_pipe = true } }))
    × (perform_all held (statistics_cleanup all_opened)
        ≡ some (record held {
          handles = record three_children.semaphores { of_ledger = false; of_log = false };
        }))
    × (perform_all held (generator_cleanup all_opened)
        ≡ some (record held {
          handles = record three_children.semaphores { of_pool = false; of_work = false };
        }))
workers-closed_example = workers-closed held all_opened refl refl

-- The queue is not there.
abbrev no_queue : Resource → Option ℕ
no_queue queue = none
no_queue _ = some 3

start-Tidy_example :
    Tidy (miner_start no_queue 2 nothing_held)
    × Tidy (validator_start no_queue nothing_held)
    × Tidy (statistics_start no_queue nothing_held)
    × Tidy (generator_start no_queue nothing_held)
start-Tidy_example = start-Tidy no_queue 2 nothing_held refl (λ e. cc e) (λ e. cc e)
