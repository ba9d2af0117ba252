-- ===== src/Validator/System.antt =====
-- Several validators, the miners and the transaction generators on one pool and one ledger, with the
-- parts of src/Validator.c between two semaphore calls interleaved in any order.
pub mod Parts
pub mod Runs
use projeto_so.Base.{
  ℕ, zero, suc, ◌+◌, ◌≤◌, ◌<◌, ◌^◌, ◌≡◌, ◌≢◌, refl, sym, ap, subst, ◌∙◌, ◌⊎◌, inl, inr, Bool, true,
  false, List, [], ◌∷◌, ◌++◌, Option, none, some, arith, get_elem?, ℕ_discrete,
}
use mathlib.Core.Logic.{ite}
use projeto_so.Chain.{TransactionBlock, TransactionPool, Ledger, StatisticsMessage}
use projeto_so.Pow.{compute_sha256, verify_nonce}
use projeto_so.TxGen.{Surroundings, Generator, add_transaction}
use projeto_so.Validator.Blocks.Stored.{IsPaddedBlock}
use projeto_so.Validator.Round.{Phase, Shared, reading, received, advance}

abbrev pub update : (ℕ → Phase) → ℕ → Phase → ℕ → Phase
update phase i p j = ite (ℕ_discrete i j) p (phase j)

-- Validator `i` is in the phase `phase i`. The blocks that the pipe holds are those in `pipe`.
pub record System : Type 0 where
  pub shared : Shared
  pub open shared use *
  pub phase : ℕ → Phase
  pub pipe : List TransactionBlock

-- A block that a miner may write: padded as it builds it, on a hash that was the ledger's last one when
-- the miner saw room in the ledger.
pub record Minable (sha : List ℕ → List ℕ) (n : ℕ) (l : Ledger) (b : TransactionBlock)
    : Type 0 where
  pub padded : IsPaddedBlock n b
  pub base : ℕ
  pub parent : TransactionBlock
  pub there : get_elem? l.blocks base ≡ some parent
  pub below : base ≤ l.last_block_index
  pub room : suc base < l.num_blocks
  pub linked : b.previous_block_hash ≡ compute_sha256 sha n parent

pub data Step (sha : List ℕ → List ℕ) (n : ℕ) (s : System) : System → Type 0 where
  mine :
      (b : TransactionBlock)
      → Minable sha n s.ledger b
      → Step sha n s (record s { pipe = s.pipe ++ b ∷ [] })
  generate :
      (env : Surroundings) (reward : ℕ) (g : Generator)
      → Step sha n s
          (record s { shared = record s.shared { pool = (add_transaction env reward g s.pool).1 } })
  read :
      (i : ℕ) (b : TransactionBlock) (rest : List TransactionBlock)
      → s.phase i ≡ reading
      → s.pipe ≡ b ∷ rest
      → Step sha n s (record s { phase = update s.phase i (received b); pipe = rest })
  run :
      (i now : ℕ)
      → Step sha n s (record s {
        shared = (advance sha n now (s.phase i) s.shared).1;
        phase = update s.phase i (advance sha n now (s.phase i) s.shared).0;
      })
  -- A validator ends, with the block that it has in hand; another may start in its place.
  leave : (i : ℕ) → Step sha n s (record s { phase = update s.phase i reading })

pub data Reach (sha : List ℕ → List ℕ) (n : ℕ) (s : System) : System → Type 0 where
  here : Reach sha n s s
  next : {t u : System} → Reach sha n s t → Step sha n t u → Reach sha n s u
