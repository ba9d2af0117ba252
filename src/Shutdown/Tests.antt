-- ===== src/Shutdown/Tests.antt =====
-- Examples for the end of a simulation.
use projeto_so.Base.{ℕ, ◌≢◌, [], refl, drop, true, false, List, arith, ℕ_discrete}
use projeto_so.Controller.Cleanup.{
  Call, when, in_order, logged, stop_validators, stop_launcher, signal_child, stop_children,
  cleanup, release,
}
use projeto_so.Samples.Controllers.{three_children}
use projeto_so.Shutdown.{
  Thread, working, cancelled, ended, finished, has_ended, set_thread, request_cancel, Shutdown,
  signal_handler_step, controller_step, leave, handle, go, Reach, here, next, at_cleanup,
}
use projeto_so.Shutdown.Stuck.{without_miner, cleanup-without_miner}
use projeto_so.Shutdown.Order.{AllEnded, cleanup-ordered}

abbrev calls : List Call
calls = (cleanup (λ pid. false) three_children).0

abbrev start : Shutdown
start = at_cleanup (λ i. working) calls

abbrev one_ended : ℕ → Thread
one_ended = set_thread (set_thread (λ i. working) 0 cancelled) 0 ended

abbrev signalled : Shutdown
signalled = record {
  threads = one_ended;
  handler = finished;
  pipe_closed = 0;
  calls = drop 9 calls;
  miner_signalled = true;
  validator_signalled = true;
  written = 0;
}

signals_sent : Reach 1 11 12 start signalled
unfolding cleanup release in_order logged stop_validators stop_launcher signal_child stop_children
    when set_thread request_cancel signal_handler_step controller_step has_ended ℕ_discrete
signals_sent =
    let r1 =
      next
        (next
          (next (next (next (next here (go _ _ refl refl)) (go _ _ refl refl)) (go _ _ refl refl))
            (go _ _ refl refl))
          (go _ _ refl refl))
        (go _ _ refl refl) in
    let r2 =
      next
        (next (next (next (next (next r1 (handle refl)) (handle refl)) (leave 0)) (handle refl))
          (handle refl))
        (handle refl) in
    next (next (next r2 (go _ _ refl refl)) (go _ _ refl refl)) (go _ _ refl refl)

cleanup-ordered_example : AllEnded 1 one_ended
cleanup-ordered_example =
    cleanup-ordered 1 (λ pid. false) three_children (λ i. working) signalled (omega arith)
      (omega arith) (omega arith) (omega arith) signals_sent refl

cleanup-without_miner_example : (without_miner (λ i. ended) calls).calls ≢ []
cleanup-without_miner_example =
    cleanup-without_miner 1 (λ pid. false) three_children (λ i. ended)
      (without_miner (λ i. ended) calls) refl refl here
