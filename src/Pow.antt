-- ===== src/Pow.antt =====
-- src/PoW/pow.c: the serialisation of a block, its hash, the difficulty test and the search for a
-- nonce. SHA256 of OpenSSL is a parameter; the clock and the debug prints are left out.
pub mod Difficulty
pub mod Hash
pub mod Search
pub mod Tests
use projeto_so.Base.{
  ℕ, zero, suc, ◌+◌, ◌-◌, ◌/◌, ◌%◌, Bool, true, false, ◌&&◌, ◌||◌, List, [], ◌∷◌, ◌++◌, Option,
  none, some, ltb, leb, ltb_int, leb_int, ◌==◌, if◌then◌else◌, take, get_or, le_bytes, u32,
}
use projeto_so.Chain.{Transaction, TransactionBlock}

abbrev pub pow_max_ops : ℕ
pow_max_ops = 10_000_000

pub data DifficultyLevel : Type 0 where
  easy normal hard : DifficultyLevel

-- The enclosing loop of get_max_transaction_reward, from `max_reward` on.
max_reward_from : ℕ → List Transaction → ℕ
max_reward_from max_reward [] = max_reward
max_reward_from max_reward (t ∷ ts) =
    max_reward_from (if ltb_int max_reward t.reward then t.reward else max_reward) ts

-- `none` is the null pointer.
unfoldable pub get_max_transaction_reward : Option TransactionBlock → ℕ → ℕ
unfolding max_reward_from
get_max_transaction_reward none txs_per_block = 0
get_max_transaction_reward (some block) txs_per_block =
    max_reward_from 0 (take txs_per_block block.transactions)

unfoldable pub serialize_transaction : Transaction → List ℕ
serialize_transaction t =
    t.tx_id ++ (le_bytes 4 t.reward ++ (le_bytes 4 t.value ++ le_bytes 8 t.timestamp))

unfoldable pub serialize_transactions : List Transaction → List ℕ
unfolding serialize_transaction
serialize_transactions [] = []
serialize_transactions (t ∷ ts) = serialize_transaction t ++ serialize_transactions ts

-- The buffer that serialize_block fills.
unfoldable pub serialize_block : ℕ → TransactionBlock → List ℕ
unfolding serialize_transactions
serialize_block n b =
    b.txb_id
    ++ (b.previous_block_hash
        ++ (le_bytes 8 b.timestamp
            ++ (serialize_transactions (take n b.transactions) ++ le_bytes 4 b.nonce)))

-- One digit of "%02x".
unfoldable pub hex_digit : ℕ → ℕ
hex_digit d = if ltb d 10 then b'0' + d else b'a' + (d - 10)

unfoldable pub hex : List ℕ → List ℕ
hex [] = []
hex (b ∷ bs) = hex_digit (b / 16) ∷ hex_digit (b % 16) ∷ hex bs

unfoldable pub get_difficult_from_reward : ℕ → DifficultyLevel
get_difficult_from_reward reward =
    if leb_int reward 1 then easy else if reward == 2 then normal else hard

-- `while (hash[zeros] == '0') zeros++;`
unfoldable pub leading_zeros : List ℕ → ℕ
leading_zeros [] = 0
leading_zeros (c ∷ cs) = if c == b'0' then suc (leading_zeros cs) else 0

-- `next_char <= 'b'`, where `char` is signed.
unfoldable pub char_le_b : ℕ → Bool
char_le_b c = leb 128 c || leb c b'b'

difficulty_met : DifficultyLevel → ℕ → ℕ → Bool
unfolding char_le_b
difficulty_met easy zeros next_char = (zeros == 4 && char_le_b next_char) || ltb 4 zeros
difficulty_met normal zeros next_char = leb 5 zeros
difficulty_met hard zeros next_char = (zeros == 5 && char_le_b next_char) || ltb 5 zeros

unfoldable pub check_difficulty : List ℕ → ℕ → Bool
unfolding difficulty_met leading_zeros get_difficult_from_reward
check_difficulty hash reward =
    let minimum : ℕ = 4 in
    let zeros = leading_zeros hash in
    if ltb zeros minimum
    then false
    else difficulty_met (get_difficult_from_reward reward) zeros (get_or hash zeros 0)

-- `hash` is `none` where the field was never written.
pub record PowResult : Type 0 where
  pub hash : Option (List ℕ)
  pub operations : ℕ
  pub error : ℕ

-- `sha` is SHA256 and `n` the global transactions_per_block.
module _ (sha : List ℕ → List ℕ) (n : ℕ) where
  unfoldable pub compute_sha256 : TransactionBlock → List ℕ
  unfolding serialize_block hex
  compute_sha256 block = hex (sha (serialize_block n block)) ++ 0 ∷ []

  unfoldable pub verify_nonce : TransactionBlock → Bool
  unfolding compute_sha256 check_difficulty get_max_transaction_reward
  verify_nonce block =
      check_difficulty (compute_sha256 block) (get_max_transaction_reward (some block) n)

  -- The loop of proof_of_work under the bound `max_ops`, with fuel for its rounds. The result is
  -- what is returned and the block as it is left; `none` is that the fuel ran out.
  unfoldable pub pow_loop : ℕ → ℕ → ℕ → ℕ → TransactionBlock → Option (PowResult × TransactionBlock)
  unfolding compute_sha256 check_difficulty
  pow_loop zero max_ops reward operations block = none
  pow_loop (suc fuel) max_ops reward operations block =
      let hash = compute_sha256 block in
      let block' = record block { nonce = u32 (block.nonce + 1) } in
      let rest = pow_loop fuel max_ops reward (operations + 1) block' in
      if check_difficulty hash reward
      then some (record { hash = some hash; operations = operations; error = 0 }, block)
      else if ltb max_ops block'.nonce
      then some (record { hash = none; operations = operations; error = 1 }, block')
      else rest

  unfoldable pub proof_of_work : TransactionBlock → Option (PowResult × TransactionBlock)
  unfolding pow_loop get_max_transaction_reward
  proof_of_work block =
      pow_loop (suc pow_max_ops) pow_max_ops (get_max_transaction_reward (some block) n) 0
        (record block { nonce = 0 })
