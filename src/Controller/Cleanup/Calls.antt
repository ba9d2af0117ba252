-- ===== src/Controller/Cleanup/Calls.antt =====
-- Lists of calls that return, one after the other.
use projeto_so.Base.{◌≡◌, refl, ap, ◌∙◌, Bool, true, false, List, [], ◌∷◌, ◌++◌, none, some}
use mathlib.Core.Option.{bind}
use projeto_so.Controller.Cleanup.{
  transactions_pool, ledger_lock, minerwork, pipeclosed, Call, Semaphores, bit, when, logged,
  close_opened, Kernel, with_bit, perform, perform_all,
}

-- Nothing is open and no name exists.
abbrev pub none_set : Semaphores
none_set = record {
  of_pool = false;
  of_ledger = false;
  of_work = false;
  of_pipe = false;
  of_log = false;
}

abbrev pub nothing_held : Kernel
nothing_held = record {
  handles = none_set;
  named = none_set;
  pool_named = false;
  ledger_named = false;
  pipe_named = false;
  queue_named = false;
}

abbrev pub with_handles : Kernel → Bool → Bool → Bool → Bool → Kernel
with_handles k a l w c = record k {
  handles = record { of_pool = a; of_ledger = l; of_work = w; of_pipe = c; of_log = true };
}

-- Every call of the list returns.
pub data Leads : Kernel → List Call → Kernel → Type 0 where
  done : {k : Kernel} → Leads k [] k
  call :
      {k : Kernel} {c : Call} {calls : List Call} {k2 k3 : Kernel}
      → perform k c ≡ some k2
      → Leads k2 calls k3
      → Leads k (c ∷ calls) k3

pub then :
    {k k2 k3 : Kernel} {xs ys : List Call} → Leads k xs k2 → Leads k2 ys k3 → Leads k (xs ++ ys) k3
then done r = r
then (call e q) r = call e (then q r)

pub Leads-perform_all :
    {k k2 : Kernel} {calls : List Call} → Leads k calls k2 → perform_all k calls ≡ some k2
unfolding perform_all bind
Leads-perform_all done = refl
Leads-perform_all {k} {calls = c ∷ calls} (call e q) =
    ap (λ o. bind o (λ k2. perform_all k2 calls)) e ∙ Leads-perform_all q

-- The calls return up to `c`, which does not; `next` stands right behind it.
pub record StopsAt (k : Kernel) (calls : List Call) (c : Call) (next : List Call) : Type 0 where
  pub before : List Call
  pub rest : List Call
  pub reached : Kernel
  pub split : calls ≡ before ++ c ∷ next ++ rest
  pub returned : perform_all k before ≡ some reached
  pub stopped : perform reached c ≡ none

-- The calls return, and then it stops.
pub then-StopsAt :
    {k k2 : Kernel} {xs ys : List Call} {c : Call} {next : List Call}
    → Leads k xs k2
    → StopsAt k2 ys c next
    → StopsAt k (xs ++ ys) c next
unfolding perform_all bind
then-StopsAt done v = v
then-StopsAt {k} {xs = x ∷ xs} (call f q) v =
    let w = then-StopsAt q v in
    record {
      before = x ∷ w.before;
      rest = w.rest;
      reached = w.reached;
      split = ap (◌∷◌ x) w.split;
      returned = ap (λ o. bind o (λ k2. perform_all k2 w.before)) f ∙ w.returned;
      stopped = w.stopped;
    }

pub when-Leads :
    {k : Kernel} (b : Bool) {calls : List Call} → Leads k calls k → Leads k (when b calls) k
unfolding when
when-Leads true q = q
when-Leads false q = done

module _ (k : Kernel) where
  pub close_pool :
      (a l w c : Bool) (m : Semaphores)
      → m.of_pool ≡ a
      → Leads
          (with_handles k a l w c)
          (close_opened m transactions_pool)
          (with_handles k false l w c)
  unfolding close_opened when logged perform bit with_bit
  close_pool true l w c m e = rw e (call refl (call refl done))
  close_pool false l w c m e = rw e done

  pub close_work :
      (a l w c : Bool) (m : Semaphores)
      → m.of_work ≡ w
      → Leads (with_handles k a l w c) (close_opened m minerwork) (with_handles k a l false c)
  unfolding close_opened when logged perform bit with_bit
  close_work a l true c m e = rw e (call refl (call refl done))
  close_work a l false c m e = rw e done

  pub close_ledger :
      (a l w c : Bool) (m : Semaphores)
      → m.of_ledger ≡ l
      → Leads (with_handles k a l w c) (close_opened m ledger_lock) (with_handles k a false w c)
  unfolding close_opened when logged perform bit with_bit
  close_ledger a true w c m e = rw e (call refl (call refl done))
  close_ledger a false w c m e = rw e done

  pub close_pipe :
      (a l w c : Bool) (m : Semaphores)
      → m.of_pipe ≡ c
      → Leads (with_handles k a l w c) (close_opened m pipeclosed) (with_handles k a l w false)
  unfolding close_opened when logged perform bit with_bit
  close_pipe a l w true m e = rw e (call refl (call refl done))
  close_pipe a l w false m e = rw e done
