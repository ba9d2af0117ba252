-- ===== src/Validator/System/Runs.antt =====
-- The states that the processes can reach, in whatever order they run.
use projeto_so.Base.{ℕ, ◌≢◌, subst, List, [], ◌∷◌, ◌++◌, ℕ_discrete}
use mathlib.Core.Logic.{ite}
use projeto_so.Chain.{TransactionBlock, Ledger}
use projeto_so.Pow.Hash.{IsDigest}
use projeto_so.Pool.{IsPool}
use projeto_so.TxGen.Rounds.{add_transaction-IsPool}
use projeto_so.Validator.Blocks.Linked.{IsLinked}
use projeto_so.Validator.Round.{
  Phase, reading, received, skipping, screened, verified, reporting, crashed, advance,
}
use projeto_so.Validator.System.{
  update, System, Minable, Step, mine, generate, read, run, leave, Reach, here, next,
}
use projeto_so.Validator.System.Parts.{HashesDiffer, Knows, Grows, advance-Advanced}

module _ (sha : List ℕ → List ℕ) (n : ℕ) where
  abbrev pub AllMinable : Ledger → List TransactionBlock → Type 0
  AllMinable l [] = Unit {0}
  AllMinable l (b ∷ bs) = Minable sha n l b × AllMinable l bs

  -- The pool is well formed, the ledger is linked, and the blocks on their way are ones that a miner may
  -- write.
  pub record IsSound (s : System) : Type 0 where
    pub pool : IsPool s.pool
    pub ledger : IsLinked sha n s.ledger
    pub phases : (i : ℕ) → Knows sha n s.ledger (s.phase i)
    pub pipe : AllMinable s.ledger s.pipe

  -- No validator has written past the ledger's blocks.
  abbrev pub NoCrash : System → Type 0
  NoCrash s = (i : ℕ) → s.phase i ≢ crashed

  AllMinable-append :
      (l : Ledger) (bs : List TransactionBlock) (b : TransactionBlock)
      → AllMinable l bs
      → Minable sha n l b
      → AllMinable l (bs ++ b ∷ [])
  AllMinable-append l [] b all m = (m, tt)
  AllMinable-append l (c ∷ bs) b all m = (all.0, AllMinable-append l bs b all.1 m)

  AllMinable-Grows :
      (l l' : Ledger)
      → Grows sha n l l'
      → (bs : List TransactionBlock) → AllMinable l bs
      → AllMinable l' bs
  AllMinable-Grows l l' g [] all = tt
  AllMinable-Grows l l' g (b ∷ bs) all = (g.minable b all.0, AllMinable-Grows l l' g bs all.1)

  Knows-Grows :
      (l l' : Ledger) → Grows sha n l l' → (p : Phase) → Knows sha n l p → Knows sha n l' p
  Knows-Grows l l' g reading k = tt
  Knows-Grows l l' g (received b) k = g.minable b k
  Knows-Grows l l' g (screened b) k = (g.minable b k.0, k.1)
  Knows-Grows l l' g (skipping b) k = tt
  Knows-Grows l l' g (verified b) k = (g.minable b k.0, k.1)
  Knows-Grows l l' g (reporting m) k = tt
  Knows-Grows l l' g crashed k = tt

  update_at :
      (P : Phase → Type 0) (phase : ℕ → Phase) (i : ℕ) (p : Phase) (j : ℕ)
      → P p
      → P (phase j)
      → P (update phase i p j)
  update_at P phase i p j new old = elim (ℕ_discrete i j) as (λ d. P (ite d p (phase j))) [
    | yes e ↦ new
    | no ne ↦ old
  ]

  module _ (digest : IsDigest sha) where
    -- What a step keeps, and that it crashes no validator unless two blocks of the ledger have one hash.
    pub record Stepped (s t : System) : Type 0 where
      pub sound : IsSound t
      pub differ : HashesDiffer sha n t.ledger → HashesDiffer sha n s.ledger
      pub no_crash : HashesDiffer sha n t.ledger → NoCrash s → NoCrash t

    Step-Stepped : (s t : System) → IsSound s → Step sha n s t → Stepped s t
    Step-Stepped s _ v (mine b m) = record {
      sound = record {
        pool = v.pool;
        ledger = v.ledger;
        phases = v.phases;
        pipe = AllMinable-append s.ledger s.pipe b v.pipe m;
      };
      differ = λ d. d;
      no_crash = λ d c. c;
    }
    Step-Stepped s _ v (generate env reward g) = record {
      sound = record {
        pool = add_transaction-IsPool env reward g s.pool v.pool;
        ledger = v.ledger;
        phases = v.phases;
        pipe = v.pipe;
      };
      differ = λ d. d;
      no_crash = λ d c. c;
    }
    Step-Stepped s _ v (read i b rest waits first) =
        let (m, others) = subst (AllMinable s.ledger) first v.pipe in
        record {
          sound = record {
            pool = v.pool;
            ledger = v.ledger;
            phases = λ j. update_at (Knows sha n s.ledger) s.phase i (received b) j m (v.phases j);
            pipe = others;
          };
          differ = λ d. d;
          no_crash = λ d c j. update_at (λ p. p ≢ crashed) s.phase i (received b) j (λ e. cc) (c j);
        }
    Step-Stepped s _ v (run i now) =
        let a =
          advance-Advanced sha n digest now (s.phase i) s.shared v.pool v.ledger (v.phases i) in
        let p = (advance sha n now (s.phase i) s.shared).0 in
        let l = (advance sha n now (s.phase i) s.shared).1.ledger in
        record {
          sound = record {
            pool = a.pool;
            ledger = a.ledger;
            phases = λ j.
                update_at (Knows sha n l) s.phase i p j a.knows
                  (Knows-Grows s.ledger l a.grows (s.phase j) (v.phases j));
            pipe = AllMinable-Grows s.ledger l a.grows s.pipe v.pipe;
          };
          differ = a.grows.differ;
          no_crash = λ d c j. update_at (λ q. q ≢ crashed) s.phase i p j (a.no_crash d (c i)) (c j);
        }
    Step-Stepped s _ v (leave i) = record {
      sound = record {
        pool = v.pool;
        ledger = v.ledger;
        phases = λ j. update_at (Knows sha n s.ledger) s.phase i reading j tt (v.phases j);
        pipe = v.pipe;
      };
      differ = λ d. d;
      no_crash = λ d c j. update_at (λ p. p ≢ crashed) s.phase i reading j (λ e. cc) (c j);
    }

    -- From a sound state every interleaving of generators, miners and validators only reaches sound
    -- ones, if SHA256 gives 32 bytes: the pool's count is the number of its filled slots, the
    -- ledger is linked by its hashes with every block meeting its difficulty, and the blocks on
    -- their way are ones that a miner may write.
    pub Reach-IsSound : (s t : System) → IsSound s → Reach sha n s t → IsSound t
    Reach-IsSound s _ v here = v
    Reach-IsSound s t v (next r step) = (Step-Stepped _ t (Reach-IsSound s _ v r) step).sound

    -- Although no validator tests for room in the ledger before it appends, none writes past the
    -- ledger's blocks, whatever the order of the steps of validators, miners and generators: from a
    -- sound state in which none has, if the hashes of the reached ledger's blocks differ, miners
    -- start only where they saw room, and SHA256 gives 32 bytes.
    pub Reach-NoCrash :
        (s t : System)
        → IsSound s
        → Reach sha n s t
        → HashesDiffer sha n t.ledger
        → NoCrash s
        → NoCrash t
    Reach-NoCrash s _ v here differ c = c
    Reach-NoCrash s t v (next r step) differ c =
        let step' = Step-Stepped _ t (Reach-IsSound s _ v r) step in
        step'.no_crash differ (Reach-NoCrash s _ v r (step'.differ differ) c)
