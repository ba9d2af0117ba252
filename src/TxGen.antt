-- ===== src/TxGen.antt =====
-- src/txGen.c: the process that adds transactions to the pool and wakes the miners. The process id,
-- the random numbers, the clock, the bytes on the stack and the outcome of the semaphore calls are
-- arguments; the segment is mapped already, and what is printed is left out.
pub mod Fill
pub mod Rounds
pub mod Tests
use projeto_so.Base.{
  ℕ, zero, suc, ◌+◌, ◌-◌, ◌%◌, ◌^◌, ◌≡◌, refl, Bool, true, false, ◌&&◌, ◌||◌, not, List, [], ◌∷◌,
  ◌++◌, Option, none, some, ltb, leb, ltb_int, leb_int, ◌==◌, if◌then◌else◌, u32, codes,
}
use projeto_so.Libc.{snprintf, format_int, atoi}
use projeto_so.Floats.{hundredths}
use projeto_so.Chain.{Transaction, PendingTransaction, TransactionPool, tx_id_len}

-- What one round takes from its surroundings.
pub record Surroundings : Type 0 where
  pub pid : ℕ
  pub random : ℕ
  pub now : ℕ
  pub stack : List ℕ
  pub waited : Bool
  pub posted : Bool

-- The variables of the process that live from round to round.
pub record Generator : Type 0 where
  pub tx_number : ℕ
  pub generated_transactions : ℕ
  pub last_signal_count : ℕ

-- The text of "TX-%d-%d".
unfoldable pub tx_name : ℕ → ℕ → List ℕ
tx_name pid number = codes "TX-" ++ (format_int pid ++ (b'-' ∷ format_int number))

unfoldable pub generate_transaction : Surroundings → ℕ → ℕ → PendingTransaction × ℕ
unfolding tx_name
generate_transaction env reward tx_number = (
  record {
    filled = 1;
    age = 0;
    tx = record {
      tx_id = snprintf env.stack tx_id_len (tx_name env.pid tx_number);
      reward = reward;
      value = hundredths (env.random % 10000);
      timestamp = env.now;
    };
  },
  u32 (tx_number + 1),
)

-- The loop that writes into the first slot that is free; `none` is that all are taken.
unfoldable pub fill_first :
    PendingTransaction → List PendingTransaction → Option (List PendingTransaction)
fill_first new [] = none
fill_first new (slot ∷ slots) =
    if slot.filled == 0
    then some (new ∷ slots)
    else elim (fill_first new slots) [ none ↦ none | some rest ↦ some (slot ∷ rest) ]

-- The part of a round between the two calls on the pool's semaphore: the variables, the pool, and
-- whether a transaction was added.
unfoldable pub add_transaction :
    Surroundings → ℕ → Generator → TransactionPool → Generator × TransactionPool × Bool
add_transaction env reward g pool =
    let (new, number) = generate_transaction env reward g.tx_number in
    if ltb pool.count pool.size
    then elim (fill_first new pool.transactions) [
      | none ↦ (g, pool, false)
      | some slots ↦ (
        record g {
          tx_number = number;
          generated_transactions = u32 (g.generated_transactions + 1);
        },
        record pool { transactions = slots; count = u32 (pool.count + 1) },
        true,
      )
    ]
    else (g, pool, false)

-- `current_count >= (int)transactions_per_block && (...)`
unfoldable pub should_signal : ℕ → Generator → TransactionPool → Bool → Bool
should_signal transactions_per_block g pool added =
    leb_int transactions_per_block pool.count
    && (added || (not (pool.count == g.last_signal_count) || pool.count == pool.size))

-- The value of sem_minerwork after the posts.
unfoldable pub signal_miners : ℕ → ℕ → ℕ
signal_miners num_miners semval =
    let to_post = u32 (num_miners + 2 ^ 32 - semval) in
    if ltb_int 0 to_post then semval + to_post else semval

pub record World : Type 0 where
  pub generator : Generator
  pub pool : TransactionPool
  pub minerwork : ℕ

pub data Outcome : Type 0 where
  continues breaks : World → Outcome

abbrev pub after : Outcome → World
after (continues w) = w
after (breaks w) = w

-- The rest of a round, when the pool has been served.
unfoldable pub finish_round : Surroundings → ℕ → ℕ → World → Bool → Outcome
finish_round env num_miners transactions_per_block w added =
    let signal = should_signal transactions_per_block w.generator w.pool added in
    let g = record w.generator {
      last_signal_count = if signal then w.pool.count else w.generator.last_signal_count;
    } in
    if not env.posted
    then breaks (record w { generator = g })
    else continues (record w {
      generator = g;
      minerwork = if signal then signal_miners num_miners w.minerwork else w.minerwork;
    })

-- One round of the loop of main.
unfoldable pub generate_round : ℕ → ℕ → ℕ → Surroundings → World → Outcome
generate_round num_miners transactions_per_block reward env w =
    let (g, pool, added) = add_transaction env reward w.generator w.pool in
    if not env.waited
    then breaks w
    else finish_round env num_miners transactions_per_block
        (record w { generator = g; pool = pool }) added

pub data ArgumentError : Type 0 where
  usage bad_reward bad_sleep_time : ArgumentError

pub data Arguments : Type 0 where
  accepted : (reward sleep_time : ℕ) → Arguments
  refused : ArgumentError → Arguments

check_arguments : ℕ → ℕ → Arguments
check_arguments reward sleep_time =
    if ltb_int reward 1 || ltb_int 3 reward
    then refused bad_reward
    else if ltb_int sleep_time 200 || ltb_int 3000 sleep_time
    then refused bad_sleep_time
    else accepted reward sleep_time

-- The checks of main on its arguments, the program's name among them.
unfoldable pub parse_arguments : List (List ℕ) → Arguments
unfolding check_arguments atoi
parse_arguments (name ∷ reward ∷ sleep_time ∷ []) = check_arguments (atoi reward) (atoi sleep_time)
parse_arguments _ = refused usage
