-- ===== src/Shutdown/Stuck.antt =====
-- The end of a simulation whose miner process has ended before it had a signal handler thread.
use projeto_so.Base.{
  ℕ, ◌≤◌, ◌≡◌, ◌≢◌, refl, subst, inl, inr, Bool, true, false, List, [], ◌∷◌, some, some_inj, arith,
  ◌==◌, either_if, ltb_int,
}
use projeto_so.Controller.Cleanup.{Call, wait_semaphore, pipeclosed, Process, cleanup}
use projeto_so.Shutdown.Announced.{waits, waits_of_cleanup}
use projeto_so.Shutdown.{
  Thread, finished, Shutdown, signal_handler_step, controller_step, Step, write, leave, handle, go,
  Reach, here, next, at_cleanup,
}

-- The process has ended, and nobody will post.
abbrev pub without_miner : (ℕ → Thread) → List Call → Shutdown
without_miner threads calls = record (at_cleanup threads calls) { handler = finished }

-- A wait is left, and no post for it.
record Stuck (s : Shutdown) : Type 0 where
  gone : s.handler ≡ finished
  closed : s.pipe_closed ≡ 0
  left : 1 ≤ waits s.calls

module _ (n miner_pid validator_pid : ℕ) where
  Stuck-go :
      (s t : Shutdown) (c : Call) (rest : List Call)
      → s.calls ≡ c ∷ rest
      → Stuck s
      → controller_step miner_pid validator_pid (record s { calls = rest }) c ≡ some t
      → Stuck t
  unfolding controller_step waits
  Stuck-go s t (wait_semaphore pipeclosed) rest at v e = elim (either_if (s.pipe_closed == 0) e) [
    | inl (none_yet, g) ↦ cc g
    | inr (some_there, same) ↦ absurd (ground (arith, some_there, v.closed))
  ]
  Stuck-go s t _ rest at v e =
      subst Stuck (some_inj e)
        record { gone = v.gone; closed = v.closed; left = subst (λ cs. 1 ≤ waits cs) at v.left }

  Stuck-Step : (s t : Shutdown) → Stuck s → Step n miner_pid validator_pid s t → Stuck t
  unfolding signal_handler_step
  Stuck-Step s _ v (write i h goes) = record { gone = v.gone; closed = v.closed; left = v.left }
  Stuck-Step s _ v (leave i) = record { gone = v.gone; closed = v.closed; left = v.left }
  Stuck-Step s t v (handle e) =
      absurd (cc (subst (λ h. signal_handler_step n s h ≡ some t) v.gone e))
  Stuck-Step s t v (go c rest at e) = Stuck-go s t c rest at v e

  Stuck-Reach : (s t : Shutdown) → Stuck s → Reach n miner_pid validator_pid s t → Stuck t
  Stuck-Reach s _ v here = v
  Stuck-Reach s t v (next r step) = Stuck-Step _ t (Stuck-Reach s _ v r) step

-- If the miner has ended without its post of the closed pipe, the controller's first cleanup never
-- comes to its end while a validator runs.
pub cleanup-without_miner :
    (num_miners : ℕ) (kill_fails : ℕ → Bool) (p : Process) (threads : ℕ → Thread) (t : Shutdown)
    → p.cleanup_called ≡ false
    → ltb_int 0 p.validator_pid ≡ true
    → Reach num_miners p.miner_pid p.validator_pid
        (without_miner threads (cleanup kill_fails p).0)
        t
    → t.calls ≢ []
unfolding waits
cleanup-without_miner n fails p threads t first runs r none_left =
    let v =
      Stuck-Reach n p.miner_pid p.validator_pid _ t
        (record { gone = refl; closed = refl; left = waits_of_cleanup fails p first runs }) r in
    absurd (omega (arith, subst (λ cs. 1 ≤ waits cs) none_left v.left))
