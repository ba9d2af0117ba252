-- ===== src/Validator/Tests.antt =====
-- Examples for src/Validator.c.
use projeto_so.Base.{
  ◌+◌, ◌≡◌, ◌≢◌, ◌↔◌, refl, ℕ_discrete, inl, true, false, [], ◌∷◌, some, arith, str_eq, c_str,
}
use projeto_so.Floats.{float_eq}
use projeto_so.Chain.{TransactionBlock}
use projeto_so.Pow.{compute_sha256}
use projeto_so.Validator.Transactions.{tx_compare, look_up, verify_transactions, pool_section}
use projeto_so.Validator.Transactions.Finding.{
  FirstSlot, Finds, AllListed, look_up-Finds, verify_transactions_iff,
}
use projeto_so.Validator.Transactions.Section.{pool_section-count, pool_section-copies}
use projeto_so.Validator.Blocks.{append_block}
use projeto_so.Validator.Blocks.Linked.{Appends, append_block-Appends}
use projeto_so.Validator.Round.{crashed, advance}
use projeto_so.Validator.System.{run, next}
use projeto_so.Validator.System.Parts.{HashesDiffer}
use projeto_so.Validator.System.Runs.{IsSound, Reach-IsSound, Reach-NoCrash}
use projeto_so.Samples.Systems.{at_start, at_start-IsSound, after_read, ran, read_once, full_pass}
use projeto_so.Samples.{
  zero_sha, zero_sha-IsDigest, payment, payment_slot, free_slot_sample, pool_of_one,
  pool_of_one-IsPool, ledger_of_one, ledger_of_one-IsLinked, mined_block, mined_block-verify,
  mined_block-IsPaddedBlock,
}

payment_found : verify_transactions (payment ∷ []) pool_of_one.transactions ≡ true
unfolding verify_transactions look_up tx_compare float_eq str_eq c_str
payment_found = refl

payment_equal : tx_compare (some payment) (some payment) ≡ true
unfolding tx_compare float_eq str_eq c_str
payment_equal = refl

same_payment : str_eq payment.tx_id payment.tx_id ≡ true
unfolding str_eq c_str
same_payment = refl

abbrev payment_first : FirstSlot payment pool_of_one.transactions
payment_first = record {
  before = [];
  slot = payment_slot;
  behind = free_slot_sample ∷ [];
  split = refl;
  none_before = tt;
  taken = omega arith;
  same_id = same_payment;
}

look_up-Finds_example :
    Finds payment pool_of_one.transactions (look_up payment pool_of_one.transactions)
look_up-Finds_example = look_up-Finds payment pool_of_one.transactions

verify_transactions_iff_example :
    (verify_transactions (payment ∷ []) pool_of_one.transactions ≡ true)
    ↔ AllListed (payment ∷ []) pool_of_one.transactions
verify_transactions_iff_example = verify_transactions_iff (payment ∷ []) pool_of_one.transactions

taken : (pool_section 1 mined_block pool_of_one).0 ≡ false
unfolding pool_section verify_transactions look_up tx_compare float_eq str_eq c_str
taken = refl

pool_section-count_example : (pool_section 1 mined_block pool_of_one).1.count + 1 ≡ 1
pool_section-count_example =
    pool_section-count 1 mined_block pool_of_one pool_of_one-IsPool refl (tt, tt) taken

abbrev double_spend : TransactionBlock
double_spend = record mined_block { transactions = payment ∷ payment ∷ [] }

pool_section-copies_example :
    ((pool_section 2 double_spend pool_of_one).0 ≡ false)
    × ((pool_section 2 double_spend pool_of_one).1.count + 1 ≡ 1)
pool_section-copies_example =
    pool_section-copies 1 payment double_spend pool_of_one pool_of_one-IsPool refl payment_first
      payment_equal (inl refl, tt)

append_block-Appends_example :
    Appends zero_sha 1 mined_block ledger_of_one
      (append_block 1 (compute_sha256 zero_sha 1 mined_block) mined_block ledger_of_one)
append_block-Appends_example =
    append_block-Appends zero_sha 1 zero_sha-IsDigest mined_block ledger_of_one
      ledger_of_one-IsLinked mined_block-IsPaddedBlock mined_block-verify

Reach-IsSound_example : IsSound zero_sha 1 (ran (ran (ran after_read 10) 11) 12)
Reach-IsSound_example =
    Reach-IsSound zero_sha 1 zero_sha-IsDigest at_start (ran (ran (ran after_read 10) 11) 12)
      at_start-IsSound full_pass

one_differs : HashesDiffer zero_sha 1 ledger_of_one
one_differs i j b c hi hj eb ec same = omega (arith, hi, hj)

Reach-NoCrash_example : (ran after_read 10).phase 1 ≢ crashed
unfolding advance ℕ_discrete
Reach-NoCrash_example =
    Reach-NoCrash zero_sha 1 zero_sha-IsDigest at_start (ran after_read 10) at_start-IsSound
      (next read_once (run 1 10)) one_differs (λ i e. cc e) 1
