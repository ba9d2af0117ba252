-- ===== src/Miner/Threads.antt =====
-- The loop of miner_thread of src/Miner.c: the ids of its blocks.
use projeto_so.Base.{
  ℕ, zero, suc, ◌+◌, ◌≤◌, ◌<◌, ◌^◌, ◌≡◌, refl, sym, ap, ◌∙◌, List, [], ◌∷◌, some, some_inj, arith,
  length, get_elem?,
}
use projeto_so.Chain.{TransactionBlock}
use projeto_so.Validator.Messages.MinerId.{block_id, block_id-injective}
use projeto_so.Miner.{
  Sights, RoundEnd, idle, full, wrote, unfinished, mine_round, mine_rounds, miner_thread,
}
use projeto_so.Miner.Search.{NoneStopped}
use projeto_so.Miner.Rounds.{mine_round-named}

module _ (sha : List ℕ → List ℕ) (n blockchain_blocks : ℕ) where
  -- The threads are stopped in no round.
  abbrev pub NoneStoppedIn : List Sights → Type 0
  NoneStoppedIn [] = Unit {0}
  NoneStoppedIn (s ∷ rounds) = NoneStopped sha n s.attempts × NoneStoppedIn rounds

  mine_rounds-after : ℕ → List Sights → RoundEnd → ℕ → List TransactionBlock
  mine_rounds-after t rounds idle k = mine_rounds sha n blockchain_blocks t k rounds
  mine_rounds-after t rounds full k = []
  mine_rounds-after t rounds (wrote number b bytes) k =
      b ∷ mine_rounds sha n blockchain_blocks t number rounds
  mine_rounds-after t rounds unfinished k = []

  mine_rounds-unfold :
      (t k : ℕ) (s : Sights) (rounds : List Sights)
      → mine_rounds sha n blockchain_blocks t k (s ∷ rounds)
        ≡ mine_rounds-after t rounds (mine_round sha n blockchain_blocks t k s) k
  unfolding mine_rounds mine_rounds-after
  mine_rounds-unfold t k s rounds =
      elim (mine_round sha n blockchain_blocks t k s)
        as (λ r.
          elim r as (λ r. List TransactionBlock) [
            | idle ↦ mine_rounds sha n blockchain_blocks t k rounds
            | full ↦ []
            | wrote number b bytes ↦ b ∷ mine_rounds sha n blockchain_blocks t number rounds
            | unfinished ↦ []
          ]
          ≡ mine_rounds-after t rounds r k) [
            | idle ↦ refl
            | full ↦ refl
            | wrote number b bytes ↦ refl
            | unfinished ↦ refl
          ]

  -- The block at `i` of a thread `t` that goes on from the number `k`.
  abbrev Named : ℕ → List Sights → ℕ → ℕ → TransactionBlock → Type 0
  Named t rounds k i b = (b.txb_id ≡ block_id t (k + i)) × (i < length rounds)

  abbrev AllNamed : ℕ → List Sights → Type 0
  AllNamed t rounds =
      (k i : ℕ) (b : TransactionBlock)
      → k + length rounds ≤ 2 ^ 31
      → get_elem? (mine_rounds sha n blockchain_blocks t k rounds) i ≡ some b
      → Named t rounds k i b

  after_round :
      (t : ℕ) (s : Sights) (rounds : List Sights) (r : RoundEnd) (k i : ℕ) (b : TransactionBlock)
      → AllNamed t rounds
      → mine_round sha n blockchain_blocks t k s ≡ r
      → NoneStopped sha n s.attempts
      → k + suc (length rounds) ≤ 2 ^ 31
      → get_elem? (mine_rounds-after t rounds r k) i ≡ some b
      → Named t (s ∷ rounds) k i b
  unfolding mine_rounds-after
  after_round t s rounds idle k i b others e free h at =
      let (name, below) = others k i b (omega (arith, h)) at in (name, omega (arith, below))
  after_round t s rounds full k i b others e free h at = cc at
  after_round t s rounds (wrote number c bytes) k zero b others e free h at =
      let (name, next) = mine_round-named sha n blockchain_blocks t k s number c bytes free e in
      let same : c ≡ b = some_inj at in
      let sum : k ≡ k + 0 = omega arith in
      (ap (λ (x : TransactionBlock). x.txb_id) (sym same) ∙ name ∙ ap (block_id t) sum, omega arith)
  after_round t s rounds (wrote number c bytes) k (suc i) b others e free h at =
      let (name, next) = mine_round-named sha n blockchain_blocks t k s number c bytes free e in
      let one_more : number ≡ k + 1 = omega (arith, next, h) in
      let (named, below) = others number i b (omega (arith, one_more, h)) at in
      let sum : number + i ≡ k + suc i = omega (arith, one_more) in
      (named ∙ ap (block_id t) sum, omega (arith, below))
  after_round t s rounds unfinished k i b others e free h at = cc at

  mine_rounds-AllNamed : (t : ℕ) (rounds : List Sights) → NoneStoppedIn rounds → AllNamed t rounds
  unfolding mine_rounds
  mine_rounds-AllNamed t [] free k i b h at = cc at
  mine_rounds-AllNamed t (s ∷ rounds) (one, others) k i b h at =
      after_round t s rounds (mine_round sha n blockchain_blocks t k s) k i b
        (mine_rounds-AllNamed t rounds others) refl one h
        (ap (λ bs. get_elem? bs i) (sym (mine_rounds-unfold t k s rounds)) ∙ at)

  -- No two blocks that miner threads write have one id: where the ids of the blocks at i and j of
  -- two threads are equal, the threads have one number and i is j, while the numbers of the threads
  -- are below 2^31, the threads are not stopped and run at most 2^31 rounds.
  pub miner_thread-distinct :
      (t t' : ℕ) (rounds rounds' : List Sights) (i j : ℕ) (b b' : TransactionBlock)
      → t < 2 ^ 31
      → t' < 2 ^ 31
      → NoneStoppedIn rounds
      → NoneStoppedIn rounds'
      → length rounds ≤ 2 ^ 31
      → length rounds' ≤ 2 ^ 31
      → get_elem? (miner_thread sha n blockchain_blocks t rounds) i ≡ some b
      → get_elem? (miner_thread sha n blockchain_blocks t' rounds') j ≡ some b'
      → b.txb_id ≡ b'.txb_id
      → (t ≡ t') × (i ≡ j)
  unfolding miner_thread
  miner_thread-distinct t t' rounds rounds' i j b b' ht ht' free free' few few' at at' same =
      let (name, below) = mine_rounds-AllNamed t rounds free 0 i b (omega (arith, few)) at in
      let (name', below') =
        mine_rounds-AllNamed t' rounds' free' 0 j b' (omega (arith, few')) at' in
      let from_i : i ≡ 0 + i = omega arith in
      let from_j : j ≡ 0 + j = omega arith in
      block_id-injective t i t' j ht (omega (arith, below, few)) ht' (omega (arith, below', few'))
        (ap (block_id t) from_i ∙ sym name ∙ same ∙ name' ∙ ap (block_id t') (sym from_j))
