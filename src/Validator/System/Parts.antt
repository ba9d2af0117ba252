-- ===== src/Validator/System/Parts.antt =====
-- The parts of a validator's pass, one at a time.
use projeto_so.Base.{
  ℕ, suc, ◌≤◌, ◌≡◌, ◌≢◌, sym, ◌∙◌, inl, inr, true, ◌&&◌, List, some, arith, Bool-cases, get_elem?,
  get_elem?_of_lt, get_elem?-set_ne, strn_eq,
}
use projeto_so.Chain.{TransactionBlock, Ledger, StatisticsMessage, hash_size}
use projeto_so.Pow.{compute_sha256, verify_nonce}
use projeto_so.Pow.Hash.{IsDigest}
use projeto_so.Pool.{IsPool}
use projeto_so.Validator.Transactions.{pool_section}
use projeto_so.Validator.Transactions.Section.{pool_section-IsPool}
use projeto_so.Validator.Blocks.Linked.{IsLinked, extended, append_block-Appends}
use projeto_so.Validator.Round.{
  Phase, Shared, reading, received, screened, skipping, verified, reporting, crashed, screen,
  check_pool, after_append, insert, advance,
}
use projeto_so.Validator.System.{Minable}

module _ (sha : List ℕ → List ℕ) (n : ℕ) where
  -- The hashes of the ledger's blocks differ.
  abbrev pub HashesDiffer : Ledger → Type 0
  HashesDiffer l =
      (i j : ℕ) (b c : TransactionBlock)
      → i ≤ l.last_block_index
      → j ≤ l.last_block_index
      → get_elem? l.blocks i ≡ some b
      → get_elem? l.blocks j ≡ some c
      → compute_sha256 sha n b ≡ compute_sha256 sha n c
      → i ≡ j

  -- What a validator knows of its block.
  abbrev pub Knows : Ledger → Phase → Type 0
  Knows l reading = Unit {0}
  Knows l (received b) = Minable sha n l b
  Knows l (screened b) = Minable sha n l b × (verify_nonce sha n b ≡ true)
  Knows l (skipping b) = Unit {0}
  Knows l (verified b) = Minable sha n l b × (verify_nonce sha n b ≡ true)
  Knows l (reporting m) = Unit {0}
  Knows l crashed = Unit {0}

  -- The blocks of `l` are those of `l'` up to its last one.
  pub record Grows (l l' : Ledger) : Type 0 where
    pub minable : (b : TransactionBlock) → Minable sha n l b → Minable sha n l' b
    pub differ : HashesDiffer l' → HashesDiffer l

  pub Grows-refl : (l : Ledger) → Grows l l
  Grows-refl l = record { minable = λ b m. m; differ = λ d. d }

  kept_at :
      (b : TransactionBlock) (l : Ledger) (i : ℕ)
      → i ≤ l.last_block_index
      → get_elem? (extended sha n b l).blocks i ≡ get_elem? l.blocks i
  kept_at b l i le = get_elem?-set_ne l.blocks b (λ e. absurd (omega arith))

  extended-Grows : (b : TransactionBlock) (l : Ledger) → Grows l (extended sha n b l)
  extended-Grows b l = record {
    minable = λ c m. record {
      padded = m.padded;
      base = m.base;
      parent = m.parent;
      there = kept_at b l m.base m.below ∙ m.there;
      below = omega (arith, m.below);
      room = m.room;
      linked = m.linked;
    };
    differ = λ d i j x y hi hj ex ey same.
        d i j x y (omega arith) (omega arith) (kept_at b l i hi ∙ ex) (kept_at b l j hj ∙ ey) same;
  }

  -- The pool and the ledger stay as they should be, and the validator still knows its block; it crashes
  -- only if two blocks of the ledger have one hash.
  pub record Advanced (p : Phase) (s : Shared) (r : Phase × Shared) : Type 0 where
    pub pool : IsPool (r.1).pool
    pub ledger : IsLinked sha n (r.1).ledger
    pub knows : Knows (r.1).ledger r.0
    pub grows : Grows s.ledger (r.1).ledger
    pub no_crash : HashesDiffer (r.1).ledger → p ≢ crashed → r.0 ≢ crashed

  screen-Knows :
      (l : Ledger) (b : TransactionBlock)
      → Minable sha n l b
      → Knows l (screen sha n l.last_block_hash b) × (screen sha n l.last_block_hash b ≢ crashed)
  unfolding screen
  screen-Knows l b m =
      elim (Bool-cases
        (verify_nonce sha n b && strn_eq hash_size b.previous_block_hash l.last_block_hash)) [
          | inl ok ↦ rw ok ((m, ground arith), λ e. cc)
          | inr bad ↦ rw bad (tt, λ e. cc)
        ]

  -- A full ledger is only reached by a block on the last hash, which no miner made.
  never_full :
      (b : TransactionBlock) (l : Ledger)
      → IsLinked sha n l
      → Minable sha n l b
      → HashesDiffer l
      → b.previous_block_hash ≡ l.last_block_hash
      → suc l.last_block_index ≢ l.num_blocks
  never_full b l v m differ same full =
      let (c, there) =
        get_elem?_of_lt l.blocks l.last_block_index (omega (arith, v.room, v.sized)) in
      let e : m.base ≡ l.last_block_index =
        differ m.base l.last_block_index m.parent c m.below (omega arith) m.there there
          (sym m.linked ∙ same ∙ v.last c there) in
      absurd (omega (arith, m.room))

  module _ (digest : IsDigest sha) where
    insert-Advanced :
        (now : ℕ) (b : TransactionBlock) (s : Shared)
        → IsPool s.pool
        → IsLinked sha n s.ledger
        → Knows s.ledger (verified b)
        → Advanced (verified b) s (advance sha n now (verified b) s)
    unfolding advance insert after_append
    insert-Advanced now b s pool linked (m, good) =
        elim (append_block-Appends sha n digest b s.ledger linked m.padded good) [
          | inl (other, e) ↦ rw e (record {
            pool = pool;
            ledger = linked;
            knows = tt;
            grows = Grows-refl s.ledger;
            no_crash = λ d h c. cc;
          })
          | inr (inl (same, fits, e, stays)) ↦ rw e (record {
            pool = pool;
            ledger = stays;
            knows = tt;
            grows = extended-Grows b s.ledger;
            no_crash = λ d h c. cc;
          })
          | inr (inr (same, full, e)) ↦ rw e (record {
            pool = pool;
            ledger = linked;
            knows = tt;
            grows = Grows-refl s.ledger;
            no_crash = λ d h c. never_full b s.ledger linked m d same full;
          })
        ]

    check_pool-Advanced :
        (now : ℕ) (b : TransactionBlock) (s : Shared)
        → IsPool s.pool
        → IsLinked sha n s.ledger
        → Knows s.ledger (screened b)
        → Advanced (screened b) s (advance sha n now (screened b) s)
    unfolding advance check_pool
    check_pool-Advanced now b s pool linked k = elim (Bool-cases (pool_section n b s.pool).0) [
      | inl skip ↦ simp skip (record {
        pool = pool_section-IsPool n b s.pool pool;
        ledger = linked;
        knows = tt;
        grows = Grows-refl s.ledger;
        no_crash = λ d h c. cc;
      })
      | inr take ↦ simp take (record {
        pool = pool_section-IsPool n b s.pool pool;
        ledger = linked;
        knows = k;
        grows = Grows-refl s.ledger;
        no_crash = λ d h c. cc;
      })
    ]

    unmoved :
        (p q : Phase) (s : Shared) (queue : List StatisticsMessage)
        → IsPool s.pool
        → IsLinked sha n s.ledger
        → Knows s.ledger q
        → (p ≢ crashed → q ≢ crashed)
        → Advanced p s (q, record s { queue = queue })
    unmoved p q s queue pool linked k c = record {
      pool = pool;
      ledger = linked;
      knows = k;
      grows = Grows-refl s.ledger;
      no_crash = λ d. c;
    }

    pub advance-Advanced :
        (now : ℕ) (p : Phase) (s : Shared)
        → IsPool s.pool
        → IsLinked sha n s.ledger
        → Knows s.ledger p
        → Advanced p s (advance sha n now p s)
    unfolding advance
    advance-Advanced now reading s pool linked k =
        unmoved reading reading s s.queue pool linked tt (λ h. h)
    advance-Advanced now (received b) s pool linked k =
        let (knows, safe) = screen-Knows s.ledger b k in
        unmoved (received b) _ s s.queue pool linked knows (λ h. safe)
    advance-Advanced now (screened b) s pool linked k = check_pool-Advanced now b s pool linked k
    advance-Advanced now (skipping b) s pool linked k =
        unmoved (skipping b) reading s _ pool linked tt (λ h e. cc)
    advance-Advanced now (verified b) s pool linked k = insert-Advanced now b s pool linked k
    advance-Advanced now (reporting m) s pool linked k =
        unmoved (reporting m) reading s _ pool linked tt (λ h e. cc)
    advance-Advanced now crashed s pool linked k =
        unmoved crashed crashed s s.queue pool linked tt (λ h. h)
