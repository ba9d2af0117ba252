-- ===== src/Samples/Controllers.antt =====
-- Static variables of the controller for the tests.
use projeto_so.Base.{true, false}
use projeto_so.Controller.Cleanup.{Process}

-- All is open, and the three children run.
abbrev pub three_children : Process
three_children = record {
  cleanup_called = false;
  validators = record { second = 0; third = 0 };
  validator_thread_created = false;
  miner_pid = 11;
  validator_pid = 12;
  statistics_pid = 13;
  shm_transactionspool_base = true;
  shm_transactionspool_fd = 4;
  shm_ledger_base = true;
  shm_ledger_fd = 5;
  semaphores = record {
    of_pool = true;
    of_ledger = true;
    of_work = true;
    of_pipe = true;
    of_log = true;
  };
  statistics_mq = 6;
  log_file = true;
}
