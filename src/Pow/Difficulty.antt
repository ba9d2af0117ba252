-- ===== src/Pow/Difficulty.antt =====
-- check_difficulty and getDifficultFromReward of src/PoW/pow.c against the patterns of hashes that
-- the comments of the source give.
use projeto_so.Base.{
  ℕ, zero, suc, ◌<◌, ◌^◌, ◌≡◌, Bool, true, false, ◌&&◌, List, [], ◌∷◌, arith, leb, leb_int, ◌==◌,
  get_or, not, ltb, if◌then◌else◌,
}
use projeto_so.Pow.{leading_zeros, char_le_b, check_difficulty, get_difficult_from_reward}

-- The hash begins with `k` zeros.
unfoldable pub zero_prefix : ℕ → List ℕ → Bool
zero_prefix zero cs = true
zero_prefix (suc k) [] = false
zero_prefix (suc k) (c ∷ cs) = c == b'0' && zero_prefix k cs

-- Behind `k` zeros a char, as a signed number, below 'c'.
unfoldable pub then_below_c : ℕ → List ℕ → Bool
unfolding zero_prefix
then_below_c k hash =
    zero_prefix k hash && not (leb b'c' (get_or hash k 0) && ltb (get_or hash k 0) 128)

-- 0000[0-b] for a reward of at most 1, 00000 for 2, and 00000[0-b] for more.
unfoldable pub matches_reward : ℕ → List ℕ → Bool
unfolding then_below_c
matches_reward reward hash =
    if leb_int reward 1
    then then_below_c 4 hash
    else if reward == 2
    then zero_prefix 5 hash
    else then_below_c 5 hash

zero_prefix-leading_zeros : (k : ℕ) (cs : List ℕ) → zero_prefix k cs ≡ leb k (leading_zeros cs)
unfolding zero_prefix leading_zeros
zero_prefix-leading_zeros zero cs = ground arith
zero_prefix-leading_zeros (suc k) [] = ground arith
zero_prefix-leading_zeros (suc k) (c ∷ cs) = ground (arith, zero_prefix-leading_zeros k cs)

get_or-leading_zeros : (k : ℕ) (cs : List ℕ) → k < leading_zeros cs → get_or cs k 0 ≡ b'0'
unfolding leading_zeros
get_or-leading_zeros k [] h = absurd (omega arith)
get_or-leading_zeros zero (c ∷ cs) h = ground arith
get_or-leading_zeros (suc k) (c ∷ cs) h = ground (arith, get_or-leading_zeros k cs)

-- The test by counting zeros accepts exactly the hashes that begin with four zeros and a char below
-- 'c', where the reward is at most 1, with five zeros where it is 2, and with five zeros and a char
-- below 'c' where it is more; a char is a signed number.
pub check_difficulty-matches :
    (hash : List ℕ) (reward : ℕ) → check_difficulty hash reward ≡ matches_reward reward hash
unfolding check_difficulty matches_reward then_below_c char_le_b get_difficult_from_reward
check_difficulty-matches hash reward = ground (
  arith,
  zero_prefix-leading_zeros 4 hash,
  zero_prefix-leading_zeros 5 hash,
  get_or-leading_zeros 4 hash,
  get_or-leading_zeros 5 hash,
)

-- A hash that is good enough for a reward is good enough for every 32-bit int that is not larger,
-- the negative ones included.
check_difficulty_mono :
    (hash : List ℕ) (reward lower : ℕ)
    → lower < 2 ^ 32
    → leb_int lower reward ≡ true
    → check_difficulty hash reward ≡ true
    → check_difficulty hash lower ≡ true
unfolding check_difficulty char_le_b
check_difficulty_mono hash reward lower int h e =
    ground (arith, get_or-leading_zeros 4 hash, get_or-leading_zeros 5 hash)
