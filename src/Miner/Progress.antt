-- ===== src/Miner/Progress.antt =====
-- From a round of a miner thread to a longer ledger: the steps of one validator that nothing interrupts.
use projeto_so.Base.{
  ℕ, suc, ◌<◌, ◌^◌, ◌≡◌, refl, sym, ap, subst, ◌∙◌, inl, inr, true, false, List, [], ◌∷◌, ◌++◌,
  arith, length, take-length, strn_eq, ℕ_discrete,
}
use mathlib.Core.Logic.{if_pos}
use projeto_so.Chain.{StatisticsMessage, TransactionBlock, TransactionPool, Ledger, hash_size}
use projeto_so.Pow.{compute_sha256, verify_nonce}
use projeto_so.Pow.Hash.{IsDigest}
use projeto_so.Validator.Transactions.{verify_transactions, pool_section}
use projeto_so.Validator.Blocks.{appended, append_block}
use projeto_so.Validator.Blocks.Hashes.{strn_eq_refl}
use projeto_so.Validator.Blocks.Linked.{IsLinked, extended, append_block-Appends}
use projeto_so.Validator.Messages.{inserted_message, mq_send}
use projeto_so.Validator.Round.{
  Phase, Shared, reading, received, screened, verified, reporting, screen, check_pool, after_append,
  insert, advance,
}
use projeto_so.Validator.System.{update, System, Minable, Step, mine, read, run, Reach, here, next}
use projeto_so.Validator.System.Runs.{IsSound}
use projeto_so.Miner.{Sights, wrote, mine_round}
use projeto_so.Miner.Search.{NoneStopped}
use projeto_so.Miner.Selection.{AllTerminated, AllCopies}
use projeto_so.Miner.Accepted.{UniqueIds, AllNumbers, AllCopies-verify}
use projeto_so.Miner.Rounds.{mine_round-Fresh, mine_round-Minable}

update_self : (f : ℕ → Phase) (i : ℕ) (p : Phase) → update f i p i ≡ p
update_self f i p = if_pos (ℕ_discrete i i) refl p (f i)

advance-reported :
    (sha : List ℕ → List ℕ) (n now : ℕ) (m : StatisticsMessage) (s : Shared)
    → advance sha n now (reporting m) s ≡ (reading, record s { queue = mq_send s.queue m })
unfolding advance
advance-reported sha n now m s = refl

module _ (sha : List ℕ → List ℕ) (n now : ℕ) (b : TransactionBlock) (s : Shared) where
  advance-screened :
      verify_nonce sha n b ≡ true
      → b.previous_block_hash ≡ s.ledger.last_block_hash
      → advance sha n now (received b) s ≡ (screened b, s)
  unfolding advance screen
  advance-screened good same =
      let equal : strn_eq hash_size b.previous_block_hash s.ledger.last_block_hash ≡ true =
        subst (λ h. strn_eq hash_size b.previous_block_hash h ≡ true) same
          (strn_eq_refl hash_size b.previous_block_hash) in
      rw (good, equal) refl

  advance-verified :
      (pool_section n b s.pool).0 ≡ false
      → advance sha n now (screened b) s
        ≡ (verified b, record s { pool = (pool_section n b s.pool).1 })
  unfolding advance check_pool
  advance-verified taken = rw taken refl

  advance-reporting :
      (index : ℕ) (l : Ledger)
      → append_block n (compute_sha256 sha n b) b s.ledger ≡ appended index l
      → advance sha n now (verified b) s
        ≡ (reporting (inserted_message n b index now), record s { ledger = l })
  unfolding advance insert after_append
  advance-reporting index l e = rw (e, after_append) refl

module _ (sha : List ℕ → List ℕ) (n : ℕ) where
  -- Validator `i` goes on from the phase `p`.
  run_to :
      {s : System} (t : System) (i now : ℕ) (p : Phase) (r : Phase × Shared)
      → t.phase i ≡ p
      → advance sha n now p t.shared ≡ r
      → Reach sha n s t
      → Reach sha n s (record t { shared = r.1; phase = update t.phase i r.0 })
  run_to t i now p r at a reached = next reached (
      subst (λ x. Step sha n t (record t { shared = x.1; phase = update t.phase i x.0 }))
        (ap (λ q. advance sha n now q t.shared) at ∙ a) (run i now))

  pool_section-accepts :
      (s : System) (b : TransactionBlock)
      → length b.transactions ≡ n
      → verify_transactions b.transactions s.pool.transactions ≡ true
      → (pool_section n b s.pool).0 ≡ false
  unfolding pool_section
  pool_section-accepts s b long ok = rw (take-length n b.transactions long) (rw ok refl)

  -- Where validator `i` waits at an empty pipe, it takes a block on the last hash that passes its checks
  -- to the end of the ledger.
  pub append_passes :
      (s : System) (b : TransactionBlock) (i now : ℕ)
      → IsDigest sha
      → IsSound sha n s
      → s.phase i ≡ reading
      → s.pipe ≡ []
      → Minable sha n s.ledger b
      → verify_nonce sha n b ≡ true
      → b.previous_block_hash ≡ s.ledger.last_block_hash
      → suc s.ledger.last_block_index < s.ledger.num_blocks
      → verify_transactions b.transactions s.pool.transactions ≡ true
      → (t : System) × Reach sha n s t
        × (t.ledger ≡ extended sha n b s.ledger)
        × (t.phase i ≡ reading)
        × (t.queue ≡ mq_send s.queue (inserted_message n b (suc s.ledger.last_block_index) now))
  append_passes s b i now digest v waits empty m good same room ok =
      let index = suc s.ledger.last_block_index in
      let section = pool_section n b s.pool in
      let taken = pool_section-accepts s b m.padded.how_many ok in
      let r1 : Reach sha n s (record s { pipe = b ∷ [] }) =
        next here (subst (λ p. Step sha n s (record s { pipe = p ++ b ∷ [] })) empty (mine b m)) in
      let f2 = update s.phase i (received b) in
      let r2 : Reach sha n s (record s { phase = f2; pipe = [] }) =
        next r1 (read i b [] waits refl) in
      let r3 =
        run_to (record s { phase = f2; pipe = [] }) i now (received b) (screened b, s.shared)
          (update_self s.phase i (received b)) (advance-screened sha n now b s.shared good same)
          r2 in
      let f3 = update f2 i (screened b) in
      let sh4 = record s.shared { pool = section.1 } in
      let r4 =
        run_to (record s { phase = f3; pipe = [] }) i now (screened b) (verified b, sh4)
          (update_self f2 i (screened b)) (advance-verified sha n now b s.shared taken) r3 in
      let f4 = update f3 i (verified b) in
      let msg = inserted_message n b index now in
      let sh5 = record sh4 { ledger = extended sha n b s.ledger } in
      let r5 =
        run_to (record s { shared = sh4; phase = f4; pipe = [] }) i now (verified b)
          (reporting msg, sh5) (update_self f3 i (verified b))
          (advance-reporting sha n now b sh4 index (extended sha n b s.ledger) (appends m)) r4 in
      let f5 = update f4 i (reporting msg) in
      let r6 =
        run_to (record s { shared = sh5; phase = f5; pipe = [] }) i now (reporting msg)
          (reading, record sh5 { queue = mq_send s.queue msg }) (update_self f4 i (reporting msg))
          (advance-reported sha n now msg sh5) r5 in
      (_, r6, refl, update_self f5 i reading, refl)
    where
      appends :
          Minable sha n s.ledger b
          → append_block n (compute_sha256 sha n b) b s.ledger
            ≡ appended (suc s.ledger.last_block_index) (extended sha n b s.ledger)
      appends m = elim (append_block-Appends sha n digest b s.ledger v.ledger m.padded good) [
        | inl (other, e) ↦ absurd (other same)
        | inr (inl (at, fits, e, linked)) ↦ e
        | inr (inr (at, full, e)) ↦ absurd (omega (arith, room, full))
      ]

  -- From a sound state in which a validator waits at the empty pipe, the block that a round of a
  -- miner thread writes, on the pool and the ledger as they are, can be taken by that validator to
  -- the end of the ledger and its message handed to the queue, which loses it where it is full,
  -- while no two filled slots have the same id, no value is a NaN, the ids end within their
  -- buffers, the numbers in the block id are below 2^31, the ledger has the number of blocks of the
  -- configuration, the threads are not stopped and SHA256 gives 32 bytes.
  pub mine_round-progress :
      (blockchain_blocks thread_id block_number number i now : ℕ) (s : System) (v : Sights)
      (b : TransactionBlock) (bytes : List ℕ)
      → IsDigest sha
      → IsSound sha n s
      → s.phase i ≡ reading
      → s.pipe ≡ []
      → v.pool ≡ s.pool
      → v.ledger ≡ s.ledger
      → s.ledger.num_blocks ≡ blockchain_blocks
      → AllTerminated s.pool.transactions
      → UniqueIds s.pool.transactions
      → AllNumbers s.pool.transactions
      → thread_id < 2 ^ 31
      → block_number < 2 ^ 31
      → NoneStopped sha n v.attempts
      → mine_round sha n blockchain_blocks thread_id block_number v ≡ wrote number b bytes
      → (t : System) × Reach sha n s t
        × (t.ledger ≡ extended sha n b s.ledger)
        × (t.phase i ≡ reading)
        × (t.queue ≡ mq_send s.queue (inserted_message n b (suc s.ledger.last_block_index) now))
  mine_round-progress bb tid bn number i now s v b bytes digest sound waits empty ep el limit ended
        unique numbers small few free e =
      let linked = subst (IsLinked sha n) (sym el) sound.ledger in
      let limit' = ap (λ (l : Ledger). l.num_blocks) el ∙ limit in
      let ended' = subst (λ (p : TransactionPool). AllTerminated p.transactions) (sym ep) ended in
      let f =
        mine_round-Fresh sha n bb tid bn v number b bytes digest linked limit' ended' small few free
          e in
      let m =
        (mine_round-Minable sha n bb tid bn v number b bytes digest linked limit' ended' small few
          free e).0 in
      append_passes s b i now digest sound waits empty (subst (λ l. Minable sha n l b) el m) f.good
        (f.on_last ∙ ap (λ (l : Ledger). l.last_block_hash) el)
        (subst (λ (l : Ledger). suc l.last_block_index < l.num_blocks) el f.room)
        (AllCopies-verify s.pool.transactions b.transactions unique numbers ended
          (subst (λ (p : TransactionPool). AllCopies p.transactions b.transactions) ep f.copies))
