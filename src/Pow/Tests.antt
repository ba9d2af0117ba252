-- ===== src/Pow/Tests.antt =====
-- Tests and examples for src/PoW/pow.c.
use projeto_so.Base.{
  ℕ, ◌≡◌, ◌≢◌, refl, ◌⊎◌, true, false, List, [], ◌∷◌, ◌++◌, some, replicate, codes,
}
use projeto_so.Pow.{
  serialize_block, hex_digit, verify_nonce, check_difficulty, leading_zeros,
  get_max_transaction_reward, char_le_b, get_difficult_from_reward, proof_of_work, pow_max_ops,
}
use projeto_so.Pow.Difficulty.{matches_reward, check_difficulty-matches}
use projeto_so.Pow.Search.{with_nonce, Searched, proof_of_work_lem, verify_nonce-proof_of_work}
use projeto_so.Pow.Hash.{compute_sha256_binds}
use projeto_so.Samples.{zero_sha, zero_sha-IsDigest, zero_hash, mined_block, mined_block-IsBlock}

abbrev hash_of_five : List ℕ
hash_of_five = codes "00000c" ++ replicate 58 b'7' ++ 0 ∷ []

hash_of_five-hard : check_difficulty hash_of_five 3 ≡ false
unfolding check_difficulty leading_zeros char_le_b get_difficult_from_reward
hash_of_five-hard = refl

hash_of_five-normal : check_difficulty hash_of_five 2 ≡ true
unfolding check_difficulty leading_zeros char_le_b get_difficult_from_reward
hash_of_five-normal = refl

check_difficulty-matches_example : check_difficulty hash_of_five 2 ≡ matches_reward 2 hash_of_five
check_difficulty-matches_example = check_difficulty-matches hash_of_five 2

proof_of_work_example :
    Searched zero_sha 1 pow_max_ops
      (get_max_transaction_reward (some mined_block) 1)
      0
      (with_nonce mined_block 0)
      (proof_of_work zero_sha 1 mined_block)
proof_of_work_example = proof_of_work_lem zero_sha 1 mined_block

mined_at_once :
    proof_of_work zero_sha 1 mined_block
    ≡ some (record { hash = some zero_hash; operations = 0; error = 0 }, mined_block)
unfolding proof_of_work hex_digit check_difficulty leading_zeros get_max_transaction_reward
    char_le_b get_difficult_from_reward
mined_at_once = refl

verify_nonce-proof_of_work_example : verify_nonce zero_sha 1 mined_block ≡ true
verify_nonce-proof_of_work_example =
    verify_nonce-proof_of_work zero_sha 1 mined_block mined_at_once refl

compute_sha256_binds_example :
    (mined_block ≡ mined_block)
    ⊎ ((serialize_block 1 mined_block ≢ serialize_block 1 mined_block)
        × (zero_sha (serialize_block 1 mined_block) ≡ zero_sha (serialize_block 1 mined_block)))
compute_sha256_binds_example =
    compute_sha256_binds zero_sha zero_sha-IsDigest 1 mined_block mined_block mined_block-IsBlock
      mined_block-IsBlock refl
