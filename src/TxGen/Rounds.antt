-- ===== src/TxGen/Rounds.antt =====
-- A round of main of src/txGen.c.
use Prim.Native.Nat.{max}
use projeto_so.Base.{
  ℕ, ◌+◌, ◌≤◌, ◌<◌, ◌^◌, ◌≡◌, refl, ap, subst, ◌∙◌, inl, inr, Bool, true, false, List, [], ◌∷◌,
  ◌++◌, arith, dec_lt, ltb, lt→ltb, Bool-cases, length, length-append, u32,
}
use projeto_so.Chain.{PendingTransaction, TransactionPool}
use projeto_so.Pool.{filled_weight, filled_count, filled_count-append, IsPool, IsPool-le}
use projeto_so.TxGen.{
  Surroundings, Generator, World, continues, after, generate_transaction, add_transaction,
  should_signal, signal_miners, finish_round, generate_round,
}
use projeto_so.TxGen.Fill.{AllFilled, fill_first-Fills}

filled_count-AllFilled :
    (slots : List PendingTransaction) → AllFilled slots → filled_count slots ≡ length slots
unfolding filled_count
filled_count-AllFilled [] h = refl
filled_count-AllFilled (s ∷ slots) h = ground (arith, filled_count-AllFilled slots h.1)

filled_count-cons :
    (s : PendingTransaction) (slots : List PendingTransaction)
    → filled_count (s ∷ slots) ≡ filled_weight s + filled_count slots
unfolding filled_count
filled_count-cons s slots = refl

-- The pool after a transaction took its first free slot.
pub record Added (env : Surroundings) (reward : ℕ) (g : Generator) (pool pool' : TransactionPool)
    : Type 0 where
  pub before : List PendingTransaction
  pub free : PendingTransaction
  pub behind : List PendingTransaction
  pub taken : AllFilled before
  pub empty : free.filled ≡ 0
  pub old : pool.transactions ≡ before ++ free ∷ behind
  pub new : pool' ≡ record pool {
    transactions = before ++ (generate_transaction env reward g.tx_number).0 ∷ behind;
    count = pool.count + 1;
  }

new_filled :
    (env : Surroundings) (reward number : ℕ) → (generate_transaction env reward number).0.filled ≡ 1
unfolding generate_transaction
new_filled env reward number = refl

module _ (env : Surroundings) (reward : ℕ) (g : Generator) (pool : TransactionPool) where
  abbrev new_slot : PendingTransaction
  new_slot = (generate_transaction env reward g.tx_number).0

  -- With room in the pool its first free slot is filled.
  pub add_transaction_room :
      IsPool pool
      → pool.count < pool.size
      → Added env reward g pool (add_transaction env reward g pool).1
        × ((add_transaction env reward g pool).2 ≡ true)
  unfolding add_transaction
  add_transaction_room v room = elim (fill_first-Fills new_slot pool.transactions) [
    | inl (all, e) ↦
        absurd (omega (arith, v.slots, v.counted, filled_count-AllFilled pool.transactions all))
    | inr (before, free, behind, taken, empty, old, e) ↦
        let u : u32 (pool.count + 1) ≡ pool.count + 1 = omega (arith, v.small) in
        rw (lt→ltb pool.count pool.size room, e, u)
          (
            record {
              before = before;
              free = free;
              behind = behind;
              taken = taken;
              empty = empty;
              old = old;
              new = refl;
            },
            refl,
          )
  ]

  -- A full pool is left as it is.
  pub add_transaction_full :
      pool.size ≤ pool.count → (add_transaction env reward g pool ≡ (g, pool, false))
  unfolding add_transaction
  add_transaction_full full = let e : ltb pool.count pool.size ≡ false = ground arith in rw e

  Added-IsPool :
      {pool' : TransactionPool} → IsPool pool → Added env reward g pool pool' → IsPool pool'
  Added-IsPool v a = rw a.new (record {
    slots = omega (
      arith,
      v.slots,
      ap length a.old,
      length-append a.before (a.free ∷ a.behind),
      length-append a.before (new_slot ∷ a.behind),
    );
    counted = ground (
      arith,
      v.counted,
      a.empty,
      ap filled_count a.old,
      filled_count-append a.before (a.free ∷ a.behind),
      filled_count-append a.before (new_slot ∷ a.behind),
      filled_count-cons a.free a.behind,
      filled_count-cons new_slot a.behind,
      new_filled env reward g.tx_number,
    );
    small = v.small;
  })

  pub add_transaction-IsPool : IsPool pool → IsPool (add_transaction env reward g pool).1
  add_transaction-IsPool v = elim (dec_lt pool.count pool.size) [
    | yes room ↦ Added-IsPool v (add_transaction_room v room).0
    | no full ↦ rw (add_transaction_full (omega arith)) v
  ]

signal_miners-max :
    (num_miners semval : ℕ)
    → num_miners < 2 ^ 31
    → semval < 2 ^ 31
    → signal_miners num_miners semval ≡ max num_miners semval
unfolding signal_miners
signal_miners-max num_miners semval h k = ground arith

finish_round-pool :
    (env : Surroundings) (num_miners per_block : ℕ) (w : World) (added : Bool)
    → (after (finish_round env num_miners per_block w added)).pool ≡ w.pool
unfolding finish_round
finish_round-pool env num_miners per_block w added = ground arith

finish_round_lem :
    (env : Surroundings) (num_miners per_block : ℕ) (w : World) (added : Bool)
    → env.posted ≡ true
    → num_miners < 2 ^ 31
    → w.minerwork < 2 ^ 31
    → per_block < 2 ^ 31
    → w.pool.count < 2 ^ 31
    → (w' : World) × (finish_round env num_miners per_block w added ≡ continues w')
      × (w'.pool ≡ w.pool)
      × (added ≡ true → per_block ≤ w.pool.count → w'.minerwork ≡ max num_miners w.minerwork)
      × (w.pool.count < per_block → w'.minerwork ≡ w.minerwork)
unfolding finish_round should_signal
finish_round_lem env num_miners per_block w added posted few sem small fits = rw posted (
  _,
  refl,
  refl,
  λ flag enough. ground (arith, signal_miners-max num_miners w.minerwork few sem),
  λ less. ground arith,
)

module _ (num_miners per_block reward : ℕ) (env : Surroundings) (w : World) where
  -- A round of the generator leaves a well-formed pool well formed, whether or not its semaphore
  -- calls succeed.
  generate_round-IsPool :
      IsPool w.pool → IsPool (after (generate_round num_miners per_block reward env w)).pool
  unfolding generate_round
  generate_round-IsPool v = elim (Bool-cases env.waited) [
    | inl ok ↦ simp ok (
        rw (finish_round-pool env num_miners per_block _ _)
          (add_transaction-IsPool env reward w.generator w.pool v))
    | inr failed ↦ simp failed v
  ]

  -- A round whose semaphore calls succeed goes on. If the well-formed pool has room, the new
  -- transaction stands in the first free slot and nothing else of it changes, and if the pool then
  -- holds a block's worth the miners' semaphore is raised to at least the number of miners; a full
  -- pool stays as it is; and below a block's worth the semaphore does. The numbers are below 2^31.
  pub generate_round_lem :
      IsPool w.pool
      → num_miners < 2 ^ 31
      → w.minerwork < 2 ^ 31
      → per_block < 2 ^ 31
      → env.waited ≡ true
      → env.posted ≡ true
      → (w' : World) × (generate_round num_miners per_block reward env w ≡ continues w')
        × (w.pool.count < w.pool.size
            → Added env reward w.generator w.pool w'.pool
              × (per_block ≤ w'.pool.count → w'.minerwork ≡ max num_miners w.minerwork))
        × (w.pool.count ≡ w.pool.size → w'.pool ≡ w.pool)
        × (w'.pool.count < per_block → w'.minerwork ≡ w.minerwork)
  unfolding generate_round
  generate_round_lem v few sem small waited posted =
      let g = (add_transaction env reward w.generator w.pool).0 in
      let pool = (add_transaction env reward w.generator w.pool).1 in
      let kept = add_transaction-IsPool env reward w.generator w.pool v in
      let (w', run, same, raised, quiet) =
        finish_round_lem env num_miners per_block (record w { generator = g; pool = pool })
          (add_transaction env reward w.generator w.pool).2 posted few sem small
          (omega (arith, IsPool-le kept, kept.small)) in
      simp waited (
        w',
        run,
        λ room.
            let (added, flag) = add_transaction_room env reward w.generator w.pool v room in
            (rw same added, λ enough. raised flag (subst (λ p. per_block ≤ p.count) same enough)),
        λ full.
            same ∙ ap (λ x. x.1) (add_transaction_full env reward w.generator w.pool (omega arith)),
        λ few_left. quiet (subst (λ p. p.count < per_block) same few_left),
      )
