-- ===== src/Lib.antt =====
-- DEIChain: a simulation of a blockchain by several processes that share a pool of pending transactions
-- and a ledger of blocks.
--
-- The parts, and how they work together:
--   * Transaction generators (src/txGen.c) put transactions into free slots of the pool, under its
--     semaphore, and wake the miners. TxGen.antt models the checks of main on its arguments,
--     generate_transaction and a round of the loop (generate_round).
--   * Miner threads (src/Miner.c, miner_thread) copy transactions out of the pool and the last hash out
--     of the ledger, search a nonce and write the block to the validation pipe. Miner.antt models a round
--     (mine_round) and the loop over the rounds (miner_thread), with the random draws, the clock and the
--     stop flag as inputs.
--   * The proof of work (src/PoW/pow.c, include/PoW/pow.h) is shared by miners and validators: Pow.antt
--     has each of its functions under its own name.
--   * The pipe carries a block as bytes: Pipe.antt has what a miner thread writes (encode_block) and what
--     validator of src/Validator.c reads (decode_block, read_blocks).
--   * Validators (src/Validator.c) test a block, take its transactions out of the pool, append it to the
--     ledger and send a message to the statistics process. Validator/Transactions.antt is the section
--     under the pool's semaphore, Validator/Blocks.antt those under the ledger's, Validator/Messages.antt
--     the messages, Validator/Round.antt the pass of the loop, cut where a semaphore is given up, and
--     Validator/System.antt the runs of several validators, miners and generators in any order; a
--     validator may end between two of these parts.
--   * The statistics process (src/Statistics.c) counts blocks and rewards: Statistics.antt, with what
--     printStatistics logs in Statistics/Printed.antt.
--   * The segments: Memory.antt has the offsets that the interfaces of src/SHMManagement.c compute and the
--     sizes that main of src/Controller.c gives to the segments.
--   * The controller (src/Controller.c) starts and ends extra validators with the load of the pool:
--     Controller.antt models validator_launcher, and Controller/Config.antt parse_config and the checks
--     of main on its values.
--     Controller/Cleanup.antt has cleanup and the handlers that call it as the list of their calls,
--     Controller/Startup.antt the steps of main that open and start everything, with the system's answers
--     as inputs, Controller/Ending.antt the waits at its end, and Workers.antt the functions cleanup of
--     the other processes, whose starts are in Workers/Startup.antt. What the system holds
--     (Kernel: the semaphores that are open, the names that exist) changes with the calls by `perform`.
--     Controller/Dump.antt has the text of dump_ledger.
--   * At the end of a simulation the controller waits for the miner before it signals the validator.
--     Shutdown.antt runs cleanup against signal_handler_thread of src/Miner.c and the miner threads.
--     Of the waits of cleanup only that for the miner's post can block there, and a thread that ends holds
--     no semaphore. Shutdown/Stuck.antt is about a miner that has ended early.
--   * All processes but the generators log with log_info, which each of their files has: Logging.antt has
--     its texts and colours, and Logging/Section.antt threads that log at the same time, and signals.
--   * The sample program src/PoW/hash_block_sample.c builds a chain with pow.c alone: HashSample.antt.
--   * Spec.antt is what all this promises: a bag of the ids of the pending transactions and a chain of
--     blocks. Slots, ages, indices and phases are forgotten; the bag is a quotient of lists. Spec/Refines
--     relates it to the runs of Validator/System.antt. Miner/Accepted.antt and Miner/Progress.antt put a
--     miner's round and a validator's pass together.
--   * The data of include/Controller.h: Chain.antt, and its sizes in bytes in Chain/Layout.antt.
--
-- Conventions: a `char` array is the list of its bytes; an integer or float is the bit pattern of its
-- type, so -1 is 2^32 - 1, and the wrap-around of the machine is written out. Libc.antt has the functions
-- of the C library that the source calls on text, and Floats.antt operations on `float`. SHA256 of
-- OpenSSL is a parameter, of which nothing is assumed but that it gives 32 bytes (IsDigest).
--
-- Fuel: the loop of proof_of_work tries at most POW_MAX_OPS + 1 nonces, and has fuel for these; the loop
-- over the pipe has fuel, and takes at least one byte a round. The loops of a miner thread run over the
-- draws and the attempts that they are given.
--
-- Not modelled: values of semaphores, but for that of sem_pipeclosed and that of the log (a wait on
-- another open semaphore returns); the mask of signals; the text of most log lines, and the prints of
-- src/SHMManagement.c and of the sample program, which only show data; allocations that fail; errors of
-- a receive from the queue. A write to the pipe is taken as atomic.
mod Base
pub mod HashSample
pub mod Libc
pub mod Floats
pub mod Chain
pub mod Pow
pub mod Pool
pub mod TxGen
pub mod Pipe
pub mod Validator
pub mod Miner
pub mod Statistics
pub mod Samples
pub mod Logging
pub mod Memory
pub mod Controller
pub mod Spec
pub mod Shutdown
pub mod Workers
