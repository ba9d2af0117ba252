-- ===== src/Spec/Refines.antt =====
-- The processes against the abstract machine.
use projeto_so.Base.{
  ℕ, zero, suc, ◌<◌, ◌≡◌, refl, sym, ap, subst, ◌∙◌, inl, inr, List, [], ◌∷◌, ◌++◌, some, some_inj,
  arith, length, take, get_elem?, get_elem?_of_lt, set, true,
}
use mathlib.Core.List.{append-nil, append_assoc}
use projeto_so.Chain.{TransactionBlock}
use projeto_so.Pow.{verify_nonce}
use projeto_so.Pow.Hash.{IsDigest}
use projeto_so.TxGen.{generate_transaction}
use projeto_so.Validator.Blocks.Linked.{IsLinked, extended, append_block-Appends}
use projeto_so.Validator.Round.{
  Phase, Shared, reading, received, screened, skipping, verified, reporting, crashed, check_pool,
  after_append, insert, advance,
}
use projeto_so.Validator.System.{System, Step, mine, generate, read, run, leave, Reach, here, next}
use projeto_so.Validator.System.Parts.{Knows}
use projeto_so.Validator.System.Runs.{IsSound, Reach-IsSound}
use projeto_so.Spec.{
  Spec, id_of, ids, chain, view_shared, view, Label, silent, offered, inserted, label_of, label,
  labels, Move, idle, full, submit, accept, extend, Moves, stay, move,
}
use projeto_so.Spec.Pending.{of_list}
use projeto_so.Spec.Pool.{pool_section-Takes, add_transaction-put}

module _ {ℓ} {A : Type ℓ} where
  take-set :
      (xs : List A) (k : ℕ) (b : A)
      → k < length xs
      → take (suc k) (set xs k b) ≡ take k xs ++ b ∷ []
  take-set [] k b h = absurd (omega arith)
  take-set (x ∷ xs) zero b h = refl
  take-set (x ∷ xs) (suc k) b h = ap (◌∷◌ x) (take-set xs k b (omega arith))

  take-last :
      (xs : List A) (k : ℕ) (x : A)
      → get_elem? xs k ≡ some x
      → take (suc k) xs ≡ take k xs ++ x ∷ []
  take-last [] k x e = cc
  take-last (y ∷ xs) zero x e = ap (λ z. z ∷ []) (some_inj e)
  take-last (y ∷ xs) (suc k) x e = ap (◌∷◌ y) (take-last xs k x e)

module _ (sha : List ℕ → List ℕ) (n : ℕ) where
  -- What an append does to the chain.
  extended-Move :
      (b : TransactionBlock) (s : Shared)
      → IsLinked sha n s.ledger
      → b.previous_block_hash ≡ s.ledger.last_block_hash
      → suc s.ledger.last_block_index < s.ledger.num_blocks
      → verify_nonce sha n b ≡ true
      → Move sha n
          (view_shared s)
          (inserted b)
          (view_shared (record s { ledger = extended sha n b s.ledger }))
  extended-Move b s v same fits good =
      let l = s.ledger in
      let (tip, there) =
        get_elem?_of_lt l.blocks l.last_block_index (omega (arith, v.room, v.sized)) in
      extend (take l.last_block_index l.blocks) tip
        (take-last l.blocks l.last_block_index tip there) (same ∙ v.last tip there) good
        (ap (λ c. record { pending = of_list (ids s.pool.transactions); chain_of = c })
          (take-set l.blocks (suc l.last_block_index) b (omega (arith, v.sized, fits))))

  module _ (digest : IsDigest sha) where
    insert-Move :
        (now : ℕ) (b : TransactionBlock) (s : Shared)
        → IsLinked sha n s.ledger
        → Knows sha n s.ledger (verified b)
        → Move sha n
            (view_shared s)
            (label_of (verified b) (advance sha n now (verified b) s).0)
            (view_shared (advance sha n now (verified b) s).1)
    unfolding advance insert after_append
    insert-Move now b s v (m, good) =
        elim (append_block-Appends sha n digest b s.ledger v m.padded good) [
          | inl (other, e) ↦ rw e idle
          | inr (inl (same, fits, e, linked)) ↦ rw e ((extended-Move b s v same fits good))
          | inr (inr (same, at_end, e)) ↦ rw e idle
        ]

    check_pool-Move :
        (now : ℕ) (b : TransactionBlock) (s : Shared)
        → Move sha n
            (view_shared s)
            (label_of (screened b) (advance sha n now (screened b) s).0)
            (view_shared (advance sha n now (screened b) s).1)
    unfolding advance check_pool
    check_pool-Move now b s = elim (pool_section-Takes n b s.pool) [
      | inl (skip, same) ↦ rw skip (
          subst (λ p. Move sha n (view_shared s) silent (view_shared (record s { pool = p })))
            (sym same) idle)
      | inr (goes_on, takes) ↦ rw goes_on (accept takes refl)
    ]

    advance-Move :
        (now : ℕ) (p : Phase) (s : Shared)
        → IsLinked sha n s.ledger
        → Knows sha n s.ledger p
        → Move sha n
            (view_shared s)
            (label_of p (advance sha n now p s).0)
            (view_shared (advance sha n now p s).1)
    unfolding advance
    advance-Move now reading s v k = idle
    advance-Move now (received b) s v k = idle
    advance-Move now (screened b) s v k = check_pool-Move now b s
    advance-Move now (skipping b) s v k = idle
    advance-Move now (verified b) s v k = insert-Move now b s v k
    advance-Move now (reporting m) s v k = idle
    advance-Move now crashed s v k = idle

    Step-Move :
        (s t : System)
        → IsSound sha n s
        → (q : Step sha n s t) → Move sha n (view s) (label s t q) (view t)
    Step-Move s _ v (mine b m) = idle
    Step-Move s _ v (generate env reward g) =
        elim (add_transaction-put env reward g s.pool v.pool) [
          | inl is_full ↦
              subst
                (λ p.
                  Move sha n (view s)
                    (offered (id_of (generate_transaction env reward g.tx_number).0.tx))
                    (view_shared (record s.shared { pool = p })))
                (sym is_full) full
          | inr added ↦ (submit (ap (λ p. record { pending = p; chain_of = chain s.ledger }) added))
        ]
    Step-Move s _ v (read i b rest waits first) = idle
    Step-Move s _ v (leave i) = idle
    Step-Move s _ v (run i now) = advance-Move now (s.phase i) s.shared v.ledger (v.phases i)

    -- Every run of generators, miners and validators from a sound state, in any order, refines the
    -- machine of a bag of pending ids and a chain, step by step. A generator's step submits the id
    -- of the transaction that it makes, or nothing; where a validator goes on with a block behind
    -- its check, all ids of the block were in the bag, and each is taken out of it as often as the
    -- block has it, or as it is there; where it reports an insertion, exactly that block stands
    -- behind the chain, it names the hash of the last one and meets its difficulty; and no other
    -- step changes anything. SHA256 gives 32 bytes.
    pub Reach-Moves :
        (s t : System)
        → IsSound sha n s
        → (r : Reach sha n s t) → Moves sha n (view s) (labels s t r) (view t)
    Reach-Moves s _ v here = stay
    Reach-Moves s t v (next r step) =
        move (Reach-Moves s _ v r) (Step-Move _ t (Reach-IsSound sha n digest s _ v r) step)

    Move-prefix :
        (u v : Spec) (a : Label)
        → Move sha n u a v
        → (rest : List TransactionBlock) × (v.chain_of ≡ u.chain_of ++ rest)
    Move-prefix u _ _ idle = ([], sym (append-nil u.chain_of))
    Move-prefix u _ _ full = ([], sym (append-nil u.chain_of))
    Move-prefix u v _ (submit e) =
        ([], ap (λ (x : Spec). x.chain_of) e ∙ sym (append-nil u.chain_of))
    Move-prefix u v _ (accept takes same) = ([], same ∙ sym (append-nil u.chain_of))
    Move-prefix u v _ (extend {b} front tip split linked good e) =
        (b ∷ [], ap (λ (x : Spec). x.chain_of) e)

    Moves-prefix :
        (u v : Spec) (past : List Label)
        → Moves sha n u past v
        → (rest : List TransactionBlock) × (v.chain_of ≡ u.chain_of ++ rest)
    Moves-prefix u _ _ stay = ([], sym (append-nil u.chain_of))
    Moves-prefix u v _ (move ms m) =
        let (first, e) = Moves-prefix u _ _ ms in
        let (more, f) = Move-prefix _ v _ m in
        (first ++ more, f ∙ ap (λ c. c ++ more) e ∙ append_assoc u.chain_of first more)

    -- In every run from a sound state the chain of the ledger only grows at its end: no block of it
    -- is changed, moved or lost, if SHA256 gives 32 bytes.
    pub Reach-prefix :
        (s t : System)
        → IsSound sha n s
        → Reach sha n s t
        → (rest : List TransactionBlock) × (chain t.ledger ≡ chain s.ledger ++ rest)
    Reach-prefix s t v r = Moves-prefix (view s) (view t) (labels s t r) (Reach-Moves s t v r)
