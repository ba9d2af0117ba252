-- ===== src/Validator/Round.antt =====
-- One pass of the loop of validator of src/Validator.c over a block from the pipe, split where the
-- process gives up a semaphore: other processes may run between the parts.
use projeto_so.Base.{ℕ, ◌&&◌, List, if◌then◌else◌, strn_eq}
use projeto_so.Chain.{TransactionBlock, TransactionPool, Ledger, StatisticsMessage, hash_size}
use projeto_so.Pow.{compute_sha256, verify_nonce}
use projeto_so.Validator.Transactions.{pool_section}
use projeto_so.Validator.Blocks.{Appended, superseded, appended, out_of_bounds, append_block}
use projeto_so.Validator.Messages.{skipped_message, inserted_message, mq_send}

-- Where a validator stands in the pass, with the local variables that are live there.
pub data Phase : Type 0 where
  reading : Phase
  received : TransactionBlock → Phase
  screened : TransactionBlock → Phase
  skipping : TransactionBlock → Phase
  verified : TransactionBlock → Phase
  reporting : StatisticsMessage → Phase
  crashed : Phase

module _ (sha : List ℕ → List ℕ) (n : ℕ) where
  -- After the copy of the last hash: the nonce and the previous hash are tested.
  unfoldable pub screen : List ℕ → TransactionBlock → Phase
  screen last_block_hash b =
      if verify_nonce sha n b && strn_eq hash_size b.previous_block_hash last_block_hash
      then screened b
      else skipping b

  -- The section under the semaphore of the pool.
  unfoldable pub check_pool : TransactionBlock → TransactionPool → Phase × TransactionPool
  check_pool b pool =
      let (skip, pool') = pool_section n b pool in (if skip then skipping b else verified b, pool')

  unfoldable pub after_append : TransactionBlock → ℕ → Ledger → Appended → Phase × Ledger
  after_append b now l superseded = (reading, l)
  after_append b now l (appended index l') = (reporting (inserted_message n b index now), l')
  after_append b now l out_of_bounds = (crashed, l)

  -- The section under the semaphore of the ledger. A block that is no longer the next one is dropped
  -- without a message.
  unfoldable pub insert : ℕ → TransactionBlock → Ledger → Phase × Ledger
  insert now b l = after_append b now l (append_block n (compute_sha256 sha n b) b l)

-- The state that the processes share, and what one validator does in one go.
pub record Shared : Type 0 where
  pub pool : TransactionPool
  pub ledger : Ledger
  pub queue : List StatisticsMessage

-- The part of the pass from a phase to the next, with the clock's value; `reading` waits for the pipe.
unfoldable pub advance : (List ℕ → List ℕ) → ℕ → ℕ → Phase → Shared → Phase × Shared
advance sha n now reading s = (reading, s)
advance sha n now (received b) s = (screen sha n s.ledger.last_block_hash b, s)
advance sha n now (screened b) s =
    let (p, pool) = check_pool sha n b s.pool in (p, record s { pool = pool })
advance sha n now (skipping b) s =
    (reading, record s { queue = mq_send s.queue (skipped_message b) })
advance sha n now (verified b) s =
    let (p, ledger) = insert sha n now b s.ledger in (p, record s { ledger = ledger })
advance sha n now (reporting m) s = (reading, record s { queue = mq_send s.queue m })
advance sha n now crashed s = (crashed, s)
