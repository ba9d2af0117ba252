-- ===== src/Validator/Blocks/Linked.antt =====
-- The chain of the ledger's blocks under the append of src/Validator.c.
use projeto_so.Base.{
  ℕ, suc, ◌+◌, ◌≤◌, ◌<◌, ◌^◌, ◌≡◌, ◌≢◌, refl, sym, ap, subst, ◌∙◌, ◌⊎◌, inl, inr, true, List, some,
  arith, Bool-cases, length, length-set, get_elem?, set, get_elem?-set_self, get_elem?-set_ne,
  get_elem?_of_lt, get_elem?_of_le, some_inj, strn_eq, u32, ℕ_discrete, dec_lt,
}
use projeto_so.Libc.{strcpy}
use projeto_so.Libc.Copy.{strn_eq→eq}
use projeto_so.Chain.{TransactionBlock, Ledger, hash_size}
use projeto_so.Pow.{compute_sha256, verify_nonce}
use projeto_so.Pow.Hash.{IsDigest, length-compute_sha256}
use projeto_so.Validator.Blocks.{
  zero_block, store_block, Appended, superseded, appended, out_of_bounds, write_block, append_block,
}
use projeto_so.Validator.Blocks.Stored.{IsPaddedBlock, store_block-zero}
use projeto_so.Validator.Blocks.Hashes.{
  compute_sha256-IsPadded, strcpy-compute_sha256, strn_eq_refl,
}

write_block-some :
    (n : ℕ) (hash : List ℕ) (b : TransactionBlock) (l : Ledger) (old : TransactionBlock)
    → get_elem? l.blocks (u32 (l.last_block_index + 1)) ≡ some old
    → write_block n hash b l
      ≡ appended (u32 (l.last_block_index + 1)) (record l {
        blocks = set l.blocks (u32 (l.last_block_index + 1)) (store_block n old b);
        last_block_hash = strcpy l.last_block_hash hash;
        count = u32 (l.count + 1);
        last_block_index = u32 (l.last_block_index + 1);
      })
unfolding write_block
write_block-some n hash b l old e = rw (e, write_block)

module _ (sha : List ℕ → List ℕ) (n : ℕ) where
  -- The ledger's blocks up to the last one each name the hash of the block before, each meet the
  -- difficulty of their transactions, and the last hash is that of the last block; the blocks behind are
  -- unused.
  pub record IsLinked (l : Ledger) : Type 0 where
    pub counted : l.count ≡ l.last_block_index + 1
    pub sized : length l.blocks ≡ l.num_blocks
    pub small : l.num_blocks < 2 ^ 31
    pub room : l.last_block_index < l.num_blocks
    pub last :
        (b : TransactionBlock)
        → get_elem? l.blocks l.last_block_index ≡ some b
        → l.last_block_hash ≡ compute_sha256 sha n b
    pub links :
        (i : ℕ) (b c : TransactionBlock)
        → i < l.last_block_index
        → get_elem? l.blocks i ≡ some b
        → get_elem? l.blocks (suc i) ≡ some c
        → c.previous_block_hash ≡ compute_sha256 sha n b
    pub mined :
        (i : ℕ) (b : TransactionBlock)
        → i ≤ l.last_block_index
        → get_elem? l.blocks i ≡ some b
        → verify_nonce sha n b ≡ true
    pub unused :
        (i : ℕ) (b : TransactionBlock)
        → l.last_block_index < i
        → get_elem? l.blocks i ≡ some b
        → b ≡ zero_block n

  -- The ledger with `b` behind its last block.
  abbrev pub extended : TransactionBlock → Ledger → Ledger
  extended b l = record l {
    blocks = set l.blocks (suc l.last_block_index) b;
    last_block_hash = compute_sha256 sha n b;
    count = l.count + 1;
    last_block_index = suc l.last_block_index;
  }

  module _ (b : TransactionBlock) (l : Ledger) (v : IsLinked l)
      (fits : suc l.last_block_index < l.num_blocks) where
    at_new : get_elem? (set l.blocks (suc l.last_block_index) b) (suc l.last_block_index) ≡ some b
    at_new = get_elem?-set_self l.blocks (suc l.last_block_index) b (omega (arith, v.sized))

    at_old :
        (i : ℕ)
        → i ≢ suc l.last_block_index
        → get_elem? (set l.blocks (suc l.last_block_index) b) i ≡ get_elem? l.blocks i
    at_old i ne = get_elem?-set_ne l.blocks b (λ e. ne (sym e))

    extended-links :
        b.previous_block_hash ≡ l.last_block_hash
        → (i : ℕ) (x y : TransactionBlock) → i < suc l.last_block_index
        → get_elem? (extended b l).blocks i ≡ some x
        → get_elem? (extended b l).blocks (suc i) ≡ some y
        → y.previous_block_hash ≡ compute_sha256 sha n x
    extended-links same i x y lt hx hy = elim (ℕ_discrete i l.last_block_index) [
      | yes e ↦
          let is_new : b ≡ y =
            some_inj
              (sym at_new ∙ subst (λ k. get_elem? (extended b l).blocks (suc k) ≡ some y) e hy) in
          let old_x : get_elem? l.blocks l.last_block_index ≡ some x =
            sym (at_old l.last_block_index (omega arith))
            ∙ subst (λ k. get_elem? (extended b l).blocks k ≡ some x) e hx in
          ap (λ (z : TransactionBlock). z.previous_block_hash) (sym is_new) ∙ same ∙ v.last x old_x
      | no ne ↦
          v.links i x y (omega arith) (sym (at_old i (omega arith)) ∙ hx)
            (sym (at_old (suc i) (omega arith)) ∙ hy)
    ]

    pub extended-IsLinked :
        b.previous_block_hash ≡ l.last_block_hash
        → verify_nonce sha n b ≡ true
        → IsLinked (extended b l)
    extended-IsLinked same good = record {
      counted = omega (arith, v.counted);
      sized = length-set l.blocks (suc l.last_block_index) b ∙ v.sized;
      small = v.small;
      room = fits;
      last = λ c h. ap (compute_sha256 sha n) (some_inj (sym at_new ∙ h));
      links = extended-links same;
      mined = λ i c le h. elim (ℕ_discrete i (suc l.last_block_index)) [
        | yes e ↦
            subst (λ z. verify_nonce sha n z ≡ true)
              (some_inj (sym at_new ∙ subst (λ k. get_elem? (extended b l).blocks k ≡ some c) e h))
              good
        | no ne ↦ v.mined i c (omega arith) (sym (at_old i ne) ∙ h)
      ];
      unused = λ i c lt h. v.unused i c (omega arith) (sym (at_old i (omega arith)) ∙ h);
    }

  -- What becomes of a block under the ledger's semaphore.
  abbrev pub Appends : TransactionBlock → Ledger → Appended → Type 0
  Appends b l result =
      ((b.previous_block_hash ≢ l.last_block_hash) × (result ≡ superseded))
      ⊎ (((b.previous_block_hash ≡ l.last_block_hash)
            × (suc l.last_block_index < l.num_blocks)
            × (result ≡ appended (suc l.last_block_index) (extended b l))
            × IsLinked (extended b l))
          ⊎ ((b.previous_block_hash ≡ l.last_block_hash)
              × (suc l.last_block_index ≡ l.num_blocks)
              × (result ≡ out_of_bounds)))

  module _ (digest : IsDigest sha) where
    last_hash :
        (l : Ledger)
        → IsLinked l
        → (b : TransactionBlock) × (l.last_block_hash ≡ compute_sha256 sha n b)
    last_hash l v =
        let (b, e) = get_elem?_of_lt l.blocks l.last_block_index (omega (arith, v.room, v.sized)) in
        (b, v.last b e)

    write_block-extended :
        (b : TransactionBlock) (l : Ledger)
        → IsLinked l
        → IsPaddedBlock n b
        → suc l.last_block_index < l.num_blocks
        → write_block n (compute_sha256 sha n b) b l
          ≡ appended (suc l.last_block_index) (extended b l)
    write_block-extended b l v p fits =
        let next : u32 (l.last_block_index + 1) ≡ suc l.last_block_index = omega (arith, v.small) in
        let count : u32 (l.count + 1) ≡ l.count + 1 = omega (arith, v.small, v.counted) in
        let (old, there) =
          get_elem?_of_lt l.blocks (suc l.last_block_index) (omega (arith, v.sized)) in
        let stored : store_block n old b ≡ b =
          ap (λ o. store_block n o b) (v.unused (suc l.last_block_index) old (omega arith) there)
          ∙ store_block-zero n b p in
        let (c, at_last) = last_hash l v in
        let hash : strcpy l.last_block_hash (compute_sha256 sha n b) ≡ compute_sha256 sha n b =
          strcpy-compute_sha256 sha digest n b l.last_block_hash
            (rw at_last (length-compute_sha256 sha digest n c)) in
        write_block-some n (compute_sha256 sha n b) b l old (ap (get_elem? l.blocks) next ∙ there)
        ∙ (λ i. appended (next i) (record l {
          blocks = set l.blocks (next i) (stored i);
          last_block_hash = hash i;
          count = count i;
          last_block_index = next i;
        }))

    write_block-full :
        (b : TransactionBlock) (l : Ledger)
        → IsLinked l
        → suc l.last_block_index ≡ l.num_blocks
        → write_block n (compute_sha256 sha n b) b l ≡ out_of_bounds
    unfolding write_block
    write_block-full b l v full =
        let next : u32 (l.last_block_index + 1) ≡ suc l.last_block_index = omega (arith, v.small) in
        let none_there =
          ap (get_elem? l.blocks) next
          ∙ get_elem?_of_le l.blocks (suc l.last_block_index) (omega (arith, v.sized)) in
        rw (none_there, write_block)

    -- A padded block with a good nonce is appended unchanged behind the last block of a linked
    -- ledger, which stays linked, if its previous hash is the last one and there is room; with
    -- another previous hash it is superseded; and where no block is left the write is out of
    -- bounds. SHA256 gives 32 bytes.
    pub append_block-Appends :
        (b : TransactionBlock) (l : Ledger)
        → IsLinked l
        → IsPaddedBlock n b
        → verify_nonce sha n b ≡ true
        → Appends b l (append_block n (compute_sha256 sha n b) b l)
    unfolding append_block
    append_block-Appends b l v p good =
        elim (Bool-cases (strn_eq hash_size b.previous_block_hash l.last_block_hash)) [
          | inr other ↦ rw other (
              inl (
                (λ same. cc (
                  other,
                  subst (λ h. strn_eq hash_size b.previous_block_hash h ≡ true) same
                      (strn_eq_refl hash_size b.previous_block_hash),
                )),
                refl,
              ))
          | inl equal ↦
              let (c, hash) = last_hash l v in
              let same : b.previous_block_hash ≡ l.last_block_hash =
                strn_eq→eq hash_size _ _ p.previous_block_hash
                  (rw hash (compute_sha256-IsPadded sha digest n c)) equal in
              rw equal (elim (dec_lt (suc l.last_block_index) l.num_blocks) [
                | yes fits ↦ inr (
                    inl (
                      same,
                      fits,
                      write_block-extended b l v p fits,
                      extended-IsLinked b l v fits same good,
                    ))
                | no full ↦
                    let e : suc l.last_block_index ≡ l.num_blocks = omega (arith, v.room) in
                    inr (inr (same, e, write_block-full b l v e))
              ])
        ]
