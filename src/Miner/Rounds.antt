-- ===== src/Miner/Rounds.antt =====
-- A round of miner_thread of src/Miner.c as a whole.
use projeto_so.Base.{
  suc, Option-cases, ℕ, ◌+◌, ◌<◌, ◌^◌, ◌≡◌, refl, sym, ap, subst, ◌∙◌, ◌⊎◌, inl, inr, true, ◌&&◌,
  List, none, some, arith, Bool-cases, ltb, leb, length, get_elem?_of_lt, u32,
}
use projeto_so.Libc.{strncpy}
use projeto_so.Libc.Copy.{IsPadded, strncpy-padded}
use projeto_so.Chain.{Transaction, TransactionBlock, hash_size}
use projeto_so.Pow.{verify_nonce}
use projeto_so.Pow.Hash.{IsDigest}
use projeto_so.Pipe.{encode_block}
use projeto_so.Validator.Blocks.Stored.{IsPaddedBlock, AllPadded}
use projeto_so.Validator.Blocks.Hashes.{compute_sha256-IsPadded}
use projeto_so.Validator.Blocks.Linked.{IsLinked}
use projeto_so.Validator.Messages.MinerId.{block_id, block_id-IsPadded}
use projeto_so.Validator.System.{Minable}
use projeto_so.Miner.{
  select_transactions, has_work, copy_last_hash, build_block, mine_block, Sights, RoundEnd, idle,
  full, wrote, unfinished, write_to_pipe, mine_selected, mine_round,
}
use projeto_so.Miner.Search.{NoneStopped, mine_block-mined}
use projeto_so.Miner.Selection.{
  AllTerminated, AllCopies, AllCopies-AllPadded, select_transactions-AllCopies,
}

module _ (sha : List ℕ → List ℕ) (n blockchain_blocks thread_id block_number : ℕ) (s : Sights) where
  -- The steps of a round that writes a block.
  record Wrote (number : ℕ) (b : TransactionBlock) (bytes : List ℕ) : Type 0 where
    ts : List Transaction
    selected : select_transactions n s.draws s.pool ≡ some ts
    room : s.ledger.count < blockchain_blocks
    mined :
        mine_block sha n s.attempts
          (build_block thread_id block_number (strncpy hash_size s.ledger.last_block_hash) ts)
        ≡ some b
    sent : bytes ≡ encode_block n b
    next : number ≡ u32 (block_number + 1)

  IsWrote : RoundEnd → Type 0
  IsWrote idle = Unit {0}
  IsWrote full = Unit {0}
  IsWrote (wrote number b bytes) = Wrote number b bytes
  IsWrote unfinished = Unit {0}

  write_to_pipe-IsWrote :
      (ts : List Transaction)
      → select_transactions n s.draws s.pool ≡ some ts
      → s.ledger.count < blockchain_blocks
      → IsWrote (
          write_to_pipe n block_number (
            mine_block sha n s.attempts
              (build_block thread_id block_number (strncpy hash_size s.ledger.last_block_hash) ts)))
  unfolding IsWrote write_to_pipe
  write_to_pipe-IsWrote ts selected room =
      let tried =
        mine_block sha n s.attempts
          (build_block thread_id block_number (strncpy hash_size s.ledger.last_block_hash) ts) in
      elim (Option-cases tried) [
        | inl out ↦ subst (λ o. IsWrote (write_to_pipe n block_number o)) (sym out) tt
        | inr (b, mined) ↦
            subst (λ o. IsWrote (write_to_pipe n block_number o)) (sym mined)
              (record {
                ts = ts;
                selected = selected;
                room = room;
                mined = mined;
                sent = refl;
                next = refl;
              })
      ]

  mine_selected-room :
      (ts : List Transaction) {hash : List ℕ}
      → copy_last_hash blockchain_blocks s.ledger ≡ some hash
      → mine_selected sha n blockchain_blocks thread_id block_number s (some ts)
        ≡ write_to_pipe n block_number
            (mine_block sha n s.attempts (build_block thread_id block_number hash ts))
  unfolding mine_selected
  mine_selected-room ts e = rw (e, mine_selected)

  mine_selected-full :
      (ts : List Transaction)
      → copy_last_hash blockchain_blocks s.ledger ≡ none
      → mine_selected sha n blockchain_blocks thread_id block_number s (some ts) ≡ full
  unfolding mine_selected
  mine_selected-full ts e = rw (e, mine_selected)

  copy_last_hash-cases :
      (copy_last_hash blockchain_blocks s.ledger ≡ none)
      ⊎ ((s.ledger.count < blockchain_blocks)
          × (copy_last_hash blockchain_blocks s.ledger
              ≡ some (strncpy hash_size s.ledger.last_block_hash)))
  unfolding copy_last_hash
  copy_last_hash-cases = elim (Bool-cases (ltb s.ledger.count blockchain_blocks)) [
    | inl room ↦ inr (ground arith, rw (room, copy_last_hash))
    | inr no_room ↦ inl (rw (no_room, copy_last_hash))
  ]

  mine_selected-IsWrote :
      (ts : List Transaction)
      → select_transactions n s.draws s.pool ≡ some ts
      → IsWrote (mine_selected sha n blockchain_blocks thread_id block_number s (some ts))
  unfolding IsWrote
  mine_selected-IsWrote ts selected = elim copy_last_hash-cases [
    | inl no_room ↦ subst IsWrote (sym (mine_selected-full ts no_room)) tt
    | inr (room, copied) ↦
        subst IsWrote (sym (mine_selected-room ts copied)) (write_to_pipe-IsWrote ts selected room)
  ]

  mine_round-IsWrote : IsWrote (mine_round sha n blockchain_blocks thread_id block_number s)
  unfolding IsWrote mine_round mine_selected
  mine_round-IsWrote =
      elim (Bool-cases
        (has_work n blockchain_blocks s.tx_count s.ledger_count && leb n s.pool.count)) [
          | inr nothing ↦ rw nothing tt
          | inl work ↦ rw work (elim (Option-cases (select_transactions n s.draws s.pool)) [
            | inl out ↦
                subst
                  (λ o. IsWrote (mine_selected sha n blockchain_blocks thread_id block_number s o))
                  (sym out) tt
            | inr (ts, selected) ↦
                subst
                  (λ o. IsWrote (mine_selected sha n blockchain_blocks thread_id block_number s o))
                  (sym selected) (mine_selected-IsWrote ts selected)
          ])
        ]

  build_block-IsPaddedBlock :
      (hash : List ℕ) (ts : List Transaction)
      → thread_id < 2 ^ 31
      → block_number < 2 ^ 31
      → IsPadded hash_size hash
      → length ts ≡ n
      → AllPadded ts
      → IsPaddedBlock n (build_block thread_id block_number hash ts)
  unfolding build_block
  build_block-IsPaddedBlock hash ts small few padded long all = record {
    txb_id = block_id-IsPadded thread_id block_number small few;
    previous_block_hash =
        subst (IsPadded hash_size) (sym (strncpy-padded hash_size hash padded)) padded;
    how_many = long;
    all = all;
  }

  -- A block of a round on the ledger's last block.
  pub record Fresh (b : TransactionBlock) (bytes : List ℕ) : Type 0 where
    pub padded : IsPaddedBlock n b
    pub room : suc s.ledger.last_block_index < s.ledger.num_blocks
    pub on_last : b.previous_block_hash ≡ s.ledger.last_block_hash
    pub good : verify_nonce sha n b ≡ true
    pub copies : AllCopies s.pool.transactions b.transactions
    pub name : b.txb_id ≡ block_id thread_id block_number
    pub sent : bytes ≡ encode_block n b

  pub mine_round-Fresh :
      (number : ℕ) (b : TransactionBlock) (bytes : List ℕ)
      → IsDigest sha
      → IsLinked sha n s.ledger
      → s.ledger.num_blocks ≡ blockchain_blocks
      → AllTerminated s.pool.transactions
      → thread_id < 2 ^ 31
      → block_number < 2 ^ 31
      → NoneStopped sha n s.attempts
      → mine_round sha n blockchain_blocks thread_id block_number s ≡ wrote number b bytes
      → Fresh b bytes
  unfolding IsWrote build_block
  mine_round-Fresh number b bytes digest linked limit ended small few free e =
      let w = subst IsWrote e mine_round-IsWrote in
      let l = s.ledger in
      let (c, there) =
        get_elem?_of_lt l.blocks l.last_block_index (omega (arith, linked.room, linked.sized)) in
      let last = linked.last c there in
      let padded = subst (IsPadded hash_size) (sym last) (compute_sha256-IsPadded sha digest n c) in
      let copied = strncpy-padded hash_size l.last_block_hash padded in
      let (long, copies) = select_transactions-AllCopies n s.draws s.pool w.ts w.selected in
      let first = build_block thread_id block_number (strncpy hash_size l.last_block_hash) w.ts in
      let built =
        build_block-IsPaddedBlock (strncpy hash_size l.last_block_hash) w.ts small few
          (subst (IsPadded hash_size) (sym copied) padded) long
          (AllCopies-AllPadded s.pool.transactions w.ts ended copies) in
      let (good, same) = mine_block-mined sha n s.attempts first b free w.mined in
      record {
        padded = record {
          txb_id = subst (IsPadded _) (sym same.txb_id) built.txb_id;
          previous_block_hash =
              subst (IsPadded _) (sym same.previous_block_hash) built.previous_block_hash;
          how_many = ap length same.transactions ∙ built.how_many;
          all = subst AllPadded (sym same.transactions) built.all;
        };
        room = omega (arith, w.room, linked.counted);
        on_last = same.previous_block_hash ∙ ap (strncpy hash_size) copied ∙ copied;
        good = good;
        copies = subst (AllCopies s.pool.transactions) (sym same.transactions) copies;
        name = same.txb_id;
        sent = w.sent;
      }

  -- The block has the number of the round, and the next one is larger by one.
  pub mine_round-named :
      (number : ℕ) (b : TransactionBlock) (bytes : List ℕ)
      → NoneStopped sha n s.attempts
      → mine_round sha n blockchain_blocks thread_id block_number s ≡ wrote number b bytes
      → (b.txb_id ≡ block_id thread_id block_number) × (number ≡ u32 (block_number + 1))
  unfolding IsWrote build_block
  mine_round-named number b bytes free e =
      let w = subst IsWrote e mine_round-IsWrote in
      let first =
        build_block thread_id block_number (strncpy hash_size s.ledger.last_block_hash) w.ts in
      ((mine_block-mined sha n s.attempts first b free w.mined).1.txb_id, w.next)

  -- What a round of a miner thread writes to the pipe is the encoding of a block that a miner may
  -- write: padded, with the thread's id, on the hash of the ledger's last block with room behind
  -- it, with a nonce that the validator accepts and copies of filled slots as its transactions.
  -- This is for a linked ledger of BLOCKCHAIN_BLOCKS blocks, ids in the pool that end within their
  -- buffers, numbers below 2^31, threads that are not stopped, and a SHA256 of 32 bytes.
  pub mine_round-Minable :
      (number : ℕ) (b : TransactionBlock) (bytes : List ℕ)
      → IsDigest sha
      → IsLinked sha n s.ledger
      → s.ledger.num_blocks ≡ blockchain_blocks
      → AllTerminated s.pool.transactions
      → thread_id < 2 ^ 31
      → block_number < 2 ^ 31
      → NoneStopped sha n s.attempts
      → mine_round sha n blockchain_blocks thread_id block_number s ≡ wrote number b bytes
      → Minable sha n s.ledger b
        × (verify_nonce sha n b ≡ true)
        × AllCopies s.pool.transactions b.transactions
        × (b.txb_id ≡ block_id thread_id block_number)
        × (bytes ≡ encode_block n b)
  mine_round-Minable number b bytes digest linked limit ended small few free e =
      let f = mine_round-Fresh number b bytes digest linked limit ended small few free e in
      let l = s.ledger in
      let (c, there) =
        get_elem?_of_lt l.blocks l.last_block_index (omega (arith, linked.room, linked.sized)) in
      (
        record {
          padded = f.padded;
          base = l.last_block_index;
          parent = c;
          there = there;
          below = omega arith;
          room = f.room;
          linked = f.on_last ∙ linked.last c there;
        },
        f.good,
        f.copies,
        f.name,
        f.sent,
      )
