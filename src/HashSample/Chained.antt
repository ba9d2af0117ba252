-- ===== src/HashSample/Chained.antt =====
-- The chain that the sample program builds.
use projeto_so.Base.{ℕ, zero, suc, ◌≤◌, ◌<◌, ◌≡◌, Bool, true, false, List, [], ◌∷◌, some}
use projeto_so.Chain.{TransactionBlock}
use projeto_so.Pow.{pow_max_ops, verify_nonce, compute_sha256, get_max_transaction_reward}
use projeto_so.Pow.Search.{good_nonce}
use projeto_so.Miner.Search.{SomeSucceeds}
use projeto_so.Validator.Blocks.{zero_block}
use projeto_so.HashSample.{BlockDraws, unmined_block, generate_random_block}

-- Attempts that nothing stops.
abbrev pub unstopped : List ℕ → List (ℕ × Bool)
unstopped [] = []
unstopped (now ∷ times) = (now, false) ∷ unstopped times

module _ (sha : List ℕ → List ℕ) (n : ℕ) where
  -- Each block names the hash of the one before, and has a good nonce.
  pub Chained : List ℕ → List TransactionBlock → Type 0
  Chained hash [] = Unit {0}
  Chained hash (b ∷ bs) =
      (b.previous_block_hash ≡ hash)
      × (verify_nonce sha n b ≡ true)
      × Chained (compute_sha256 sha n b) bs

  -- The first nonce that is good for the zeroed block.
  pub record FirstNonce (k : ℕ) : Type 0 where
    pub within : k ≤ pow_max_ops
    pub good :
        good_nonce sha n (get_max_transaction_reward (some (zero_block n)) n) (zero_block n) k
        ≡ true
    pub least :
        (m : ℕ)
        → m < k
        → good_nonce sha n (get_max_transaction_reward (some (zero_block n)) n) (zero_block n) m
          ≡ false

module _ (sha : List ℕ → List ℕ) (n : ℕ) (value_of : ℕ → ℕ) (pid tid : ℕ)
    (surroundings : ℕ → BlockDraws) where
  -- Each of the next blocks, made behind the hash of the one before, has a good nonce at one of its times.
  abbrev pub AllMineable : List ℕ → ℕ → ℕ → Type 0
  AllMineable hash i zero = Unit {0}
  AllMineable hash i (suc left) =
      SomeSucceeds sha n (unmined_block value_of pid n tid hash i (surroundings i))
        (unstopped (surroundings i).times)
      × ((b : TransactionBlock)
          → generate_random_block sha n value_of pid tid surroundings hash i ≡ some b
          → AllMineable (compute_sha256 sha n b) (suc i) left)
