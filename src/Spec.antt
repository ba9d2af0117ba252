-- ===== src/Spec.antt =====
-- What the simulation promises: a bag of pending transactions, known by their ids, and a chain of blocks
-- that only grows at its end. Slots, ages, rewards, indices and phases are forgotten.
pub mod Pending
pub mod Pool
pub mod Refines
pub mod Tests
use projeto_so.Base.{
  ℕ, suc, ◌≡◌, refl, true, List, [], ◌∷◌, ◌++◌, map, take, c_str, if◌then◌else◌, ◌==◌,
}
use projeto_so.Chain.{Transaction, PendingTransaction, TransactionBlock, Ledger}
use projeto_so.Pow.{compute_sha256, verify_nonce}
use projeto_so.TxGen.{generate_transaction}
use projeto_so.Validator.Round.{Shared, Phase, screened, verified, reporting, advance}
use projeto_so.Validator.System.{System, Step, mine, generate, read, run, leave, Reach, here, next}
use projeto_so.Spec.Pending.{Bag, of_list, put, Takes}

abbrev pub id_of : Transaction → List ℕ
id_of t = c_str t.tx_id

-- The ids in the filled slots.
unfoldable pub ids : List PendingTransaction → List (List ℕ)
ids [] = []
ids (s ∷ slots) = let rest = ids slots in if s.filled == 0 then rest else id_of s.tx ∷ rest

-- The blocks of the ledger up to its last one.
abbrev pub chain : Ledger → List TransactionBlock
chain l = take (suc l.last_block_index) l.blocks

pub record Spec : Type 0 where
  pub pending : Bag
  pub chain_of : List TransactionBlock

abbrev pub view_shared : Shared → Spec
view_shared s = record { pending = of_list (ids s.pool.transactions); chain_of = chain s.ledger }

abbrev pub view : System → Spec
view s = view_shared s.shared

-- What the processes do, as far as the abstract machine sees it: a generator offers a transaction with an
-- id, a validator goes on with a block that it has checked against the pool, or reports one that it has
-- put into the ledger.
pub data Label : Type 0 where
  silent : Label
  offered : List ℕ → Label
  accepted : TransactionBlock → Label
  inserted : TransactionBlock → Label

-- The label of a part of a validator's pass, by where it stands before and behind it.
abbrev pub label_of : Phase → Phase → Label
label_of (screened b) (verified c) = accepted b
label_of (verified b) (reporting m) = inserted b
label_of _ _ = silent

module _ {sha : List ℕ → List ℕ} {n : ℕ} where
  abbrev pub label : (s t : System) → Step sha n s t → Label
  label s _ (mine b m) = silent
  label s _ (generate env reward g) =
      offered (id_of (generate_transaction env reward g.tx_number).0.tx)
  label s _ (read i b rest waits first) = silent
  label s _ (run i now) = label_of (s.phase i) (advance sha n now (s.phase i) s.shared).0
  label s _ (leave i) = silent

  -- The labels of a run, the last one first.
  abbrev pub labels : (s t : System) → Reach sha n s t → List Label
  labels s _ here = []
  labels s t (next {t = r} q step) = label r t step ∷ labels s r q

-- What a step with a label does to the abstract machine.
pub data Move (sha : List ℕ → List ℕ) (n : ℕ) (u : Spec) : Label → Spec → Type 0 where
  idle : Move sha n u silent u
  -- There is no free slot for the transaction.
  full : {id : List ℕ} → Move sha n u (offered id) u
  -- The transaction is submitted.
  submit :
      {id : List ℕ} {v : Spec}
      → v ≡ record u { pending = put id u.pending }
      → Move sha n u (offered id) v
  -- The transactions of the block are in the bag, and are taken out of it.
  accept :
      {b : TransactionBlock} {v : Spec}
      → Takes (map id_of (take n b.transactions)) u.pending v.pending
      → v.chain_of ≡ u.chain_of
      → Move sha n u (accepted b) v
  -- The block, which names the hash of the chain's last one and meets its difficulty, is put behind it.
  extend :
      {b : TransactionBlock} {v : Spec} (front : List TransactionBlock) (tip : TransactionBlock)
      → u.chain_of ≡ front ++ tip ∷ []
      → b.previous_block_hash ≡ compute_sha256 sha n tip
      → verify_nonce sha n b ≡ true
      → v ≡ record u { chain_of = u.chain_of ++ b ∷ [] }
      → Move sha n u (inserted b) v

-- A move for each label, the last one first.
pub data Moves (sha : List ℕ → List ℕ) (n : ℕ) (u : Spec) : List Label → Spec → Type 0 where
  stay : Moves sha n u [] u
  move :
      {past : List Label} {a : Label} {v w : Spec}
      → Moves sha n u past v
      → Move sha n v a w
      → Moves sha n u (a ∷ past) w
