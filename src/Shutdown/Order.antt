-- ===== src/Shutdown/Order.antt =====
-- The order of the signals at the end of a simulation.
use projeto_so.Base.{
  ℕ, suc, ◌<◌, ◌≡◌, ◌≢◌, refl, sym, ap, subst, ◌∙◌, ◌⊎◌, inl, inr, Bool, true, false, List, ◌∷◌,
  some, some_inj, arith, ltb, ◌==◌, ℕ_discrete, and_split, some_if, either_if, if◌then◌else◌, ◌||◌,
}
use mathlib.Core.Logic.{if_pos, if_neg}
use projeto_so.Controller.Cleanup.{
  Call, terminate_process, wait_semaphore, pipeclosed, Process, cleanup,
}
use projeto_so.Shutdown.Guarded.{guarded, guarded-cleanup}
use projeto_so.Shutdown.{
  Thread, working, cancelled, ended, has_ended, Handler, waiting, cancelling, joining, finished,
  set_thread, Shutdown, signal_handler_step, controller_step, Step, write, leave, handle, go, Reach,
  here, next, at_cleanup,
}

abbrev pub AllEnded : ℕ → (ℕ → Thread) → Type 0
AllEnded n threads = (j : ℕ) → j < n → threads j ≡ ended

abbrev Joined : ℕ → Handler → (ℕ → Thread) → Type 0
Joined n waiting threads = Unit {0}
Joined n (cancelling i) threads = Unit {0}
Joined n (joining i) threads = AllEnded i threads
Joined n finished threads = AllEnded n threads

AllEnded-ended :
    (n : ℕ) (threads : ℕ → Thread) (i : ℕ)
    → AllEnded n threads
    → AllEnded n (set_thread threads i ended)
unfolding set_thread
AllEnded-ended n threads i all j h = elim (ℕ_discrete i j) [
  | yes e ↦ if_pos (ℕ_discrete i j) e ended (threads j)
  | no ne ↦ if_neg (ℕ_discrete i j) ne ended (threads j) ∙ all j h
]

Joined-ended :
    (n : ℕ) (h : Handler) (threads : ℕ → Thread) (i : ℕ)
    → Joined n h threads
    → Joined n h (set_thread threads i ended)
Joined-ended n waiting threads i v = tt
Joined-ended n (cancelling k) threads i v = tt
Joined-ended n (joining k) threads i v = AllEnded-ended k threads i v
Joined-ended n finished threads i v = AllEnded-ended n threads i v

has_ended-ended : (t : Thread) → has_ended t ≡ true → t ≡ ended
unfolding has_ended
has_ended-ended working e = cc e
has_ended-ended cancelled e = cc e
has_ended-ended ended e = refl

AllEnded-suc :
    (i : ℕ) (threads : ℕ → Thread)
    → AllEnded i threads
    → threads i ≡ ended
    → AllEnded (suc i) threads
AllEnded-suc i threads all last j h = elim (ℕ_discrete j i) [
  | yes e ↦ ap threads e ∙ last
  | no ne ↦ all j (omega (arith, h, ne))
]

-- The state on the way to the signal for the validator.
record InOrder (n validator_pid : ℕ) (s : Shutdown) : Type 0 where
  joined : Joined n s.handler s.threads
  posted : (s.pipe_closed ≡ 0) ⊎ (s.handler ≡ finished)
  ahead : (guarded validator_pid s.calls ≡ true) ⊎ (s.handler ≡ finished)
  told : (s.validator_signalled ≡ false) ⊎ (s.handler ≡ finished)

-- A handler that has not finished.
not_yet : {P : Type 0} {h k : Handler} → P ⊎ (h ≡ finished) → h ≡ k → k ≢ finished → P
not_yet (inl p) same other = p
not_yet (inr e) same other = absurd (other (sym same ∙ e))

module _ (n miner_pid validator_pid : ℕ) where
  InOrder-handle :
      (s t : Shutdown) (h : Handler)
      → s.handler ≡ h
      → InOrder n validator_pid s
      → signal_handler_step n s h ≡ some t
      → InOrder n validator_pid t
  unfolding signal_handler_step
  InOrder-handle s t waiting at v e =
      let (told, same) = some_if s.miner_signalled e in
      subst (InOrder n validator_pid) same record {
        joined = tt;
        posted = inl (not_yet v.posted at (λ f. cc f));
        ahead = inl (not_yet v.ahead at (λ f. cc f));
        told = inl (not_yet v.told at (λ f. cc f));
      }
  InOrder-handle s t (cancelling i) at v e =
      let posted = not_yet v.posted at (λ f. cc f) in
      let ahead = not_yet v.ahead at (λ f. cc f) in
      let told = not_yet v.told at (λ f. cc f) in
      elim (either_if (ltb i n) e) [
        | inl (more, same) ↦
            subst (InOrder n validator_pid) (some_inj same)
              record { joined = tt; posted = inl posted; ahead = inl ahead; told = inl told }
        | inr (over, same) ↦ subst (InOrder n validator_pid) same record {
          joined = λ j h. absurd (omega (arith, h));
          posted = inl posted;
          ahead = inl ahead;
          told = inl told;
        }
      ]
  InOrder-handle s t (joining i) at v e =
      let posted = not_yet v.posted at (λ f. cc f) in
      let ahead = not_yet v.ahead at (λ f. cc f) in
      let told = not_yet v.told at (λ f. cc f) in
      let joined : AllEnded i s.threads = subst (λ h. Joined n h s.threads) at v.joined in
      elim (either_if (ltb i n) e) [
        | inl (more, f) ↦
            let (last, same) = some_if (has_ended (s.threads i)) f in
            subst (InOrder n validator_pid) same record {
              joined = AllEnded-suc i s.threads joined (has_ended-ended (s.threads i) last);
              posted = inl posted;
              ahead = inl ahead;
              told = inl told;
            }
        | inr (over, same) ↦ subst (InOrder n validator_pid) same record {
          joined = λ j h. joined j (ground (arith, over));
          posted = inr refl;
          ahead = inr refl;
          told = inr refl;
        }
      ]
  InOrder-handle s t finished at v e = cc e

  InOrder-rest :
      (s : Shutdown) (rest : List Call)
      → InOrder n validator_pid s
      → (guarded validator_pid s.calls ≡ true → guarded validator_pid rest ≡ true)
      → InOrder n validator_pid (record s { calls = rest })
  InOrder-rest s rest v f = record {
    joined = v.joined;
    posted = v.posted;
    ahead = kept v.ahead;
    told = v.told;
  }
    where
      kept :
          (guarded validator_pid s.calls ≡ true) ⊎ (s.handler ≡ finished)
          → (guarded validator_pid rest ≡ true) ⊎ (s.handler ≡ finished)
      kept (inl g) = inl (f g)
      kept (inr e) = inr e

  -- A signal for a process behind whose calls stands a wait.
  InOrder-terminate :
      (s : Shutdown) (pid : ℕ) (rest : List Call)
      → InOrder n validator_pid s
      → s.calls ≡ terminate_process pid ∷ rest
      → (b : Bool)
      → InOrder n validator_pid (record s {
        calls = rest;
        miner_signalled = b;
        validator_signalled = (pid == validator_pid) || s.validator_signalled;
      })
  unfolding guarded
  InOrder-terminate s pid rest v at b = elim v.ahead [
    | inl g ↦
        let h : guarded validator_pid (terminate_process pid ∷ rest) ≡ true =
          subst (λ cs. guarded validator_pid cs ≡ true) at g in
        let (other, behind) =
          and_split (if pid == validator_pid then false else true) (guarded validator_pid rest) h in
        record {
          joined = v.joined;
          posted = v.posted;
          ahead = inl behind;
          told = still v.told other;
        }
    | inr e ↦ record { joined = v.joined; posted = v.posted; ahead = inr e; told = inr e }
  ]
    where
      still :
          (s.validator_signalled ≡ false) ⊎ (s.handler ≡ finished)
          → (if pid == validator_pid then false else true) ≡ true
          → (((pid == validator_pid) || s.validator_signalled) ≡ false) ⊎ (s.handler ≡ finished)
      still (inl quiet) other = inl (ground (arith, quiet, other))
      still (inr e) other = inr e

  InOrder-go :
      (s t : Shutdown) (c : Call) (rest : List Call)
      → InOrder n validator_pid s
      → s.calls ≡ c ∷ rest
      → controller_step miner_pid validator_pid (record s { calls = rest }) c ≡ some t
      → InOrder n validator_pid t
  unfolding controller_step guarded
  InOrder-go s t (terminate_process pid) rest v at e =
      subst (InOrder n validator_pid) (some_inj e) (InOrder-terminate s pid rest v at _)
  InOrder-go s t (wait_semaphore pipeclosed) rest v at e = elim v.posted [
    | inl zero_yet ↦ cc (e, zero_yet)
    | inr f ↦ elim (either_if (s.pipe_closed == 0) e) [
      | inl (none_yet, g) ↦ cc g
      | inr (some_there, same) ↦
          subst (InOrder n validator_pid) same
            record { joined = v.joined; posted = inr f; ahead = inr f; told = inr f }
    ]
  ]
  InOrder-go s t _ rest v at e =
      subst (InOrder n validator_pid) (some_inj e)
        (InOrder-rest s rest v (λ g. subst (λ cs. guarded validator_pid cs ≡ true) at g))

  InOrder-Step :
      (s t : Shutdown)
      → InOrder n validator_pid s
      → Step n miner_pid validator_pid s t
      → InOrder n validator_pid t
  InOrder-Step s _ v (write i h goes) = record {
    joined = v.joined;
    posted = v.posted;
    ahead = v.ahead;
    told = v.told;
  }
  InOrder-Step s _ v (leave i) = record {
    joined = Joined-ended n s.handler s.threads i v.joined;
    posted = v.posted;
    ahead = v.ahead;
    told = v.told;
  }
  InOrder-Step s t v (handle e) = InOrder-handle s t s.handler refl v e
  InOrder-Step s t v (go c rest at e) = InOrder-go s t c rest v at e

  InOrder-Reach :
      (s t : Shutdown)
      → InOrder n validator_pid s
      → Reach n miner_pid validator_pid s t
      → InOrder n validator_pid t
  InOrder-Reach s _ v here = v
  InOrder-Reach s t v (next r step) = InOrder-Step _ t (InOrder-Reach s _ v r) step

-- In whatever order the controller's cleanup, the miner's signal handler thread and its threads
-- run, cleanup signals the validator only when all miner threads have ended, so that none writes a
-- block behind the signal, if the validator's process id differs from those of the other processes.
pub cleanup-ordered :
    (num_miners : ℕ) (kill_fails : ℕ → Bool) (p : Process) (threads : ℕ → Thread) (t : Shutdown)
    → p.validators.second ≢ p.validator_pid
    → p.validators.third ≢ p.validator_pid
    → p.miner_pid ≢ p.validator_pid
    → p.statistics_pid ≢ p.validator_pid
    → Reach num_miners p.miner_pid p.validator_pid (at_cleanup threads (cleanup kill_fails p).0) t
    → t.validator_signalled ≡ true
    → AllEnded num_miners t.threads
cleanup-ordered n fails p threads t second third miner statistics r told =
    let start : InOrder n p.validator_pid (at_cleanup threads (cleanup fails p).0) = record {
      joined = tt;
      posted = inl refl;
      ahead = inl (guarded-cleanup p.validator_pid fails p second third miner statistics);
      told = inl refl;
    } in
    let v = InOrder-Reach n p.miner_pid p.validator_pid _ t start r in
    elim v.told [
      | inl not_told ↦ cc (told, not_told)
      | inr e ↦ subst (λ h. Joined n h t.threads) e v.joined
    ]
