-- ===== src/Validator.antt =====
-- src/Validator.c: the process that checks the blocks of the pipe against the pool and the ledger.
-- Transactions: the section under the pool's semaphore. Blocks: the sections under the ledger's
-- semaphore. Messages: what is sent to the statistics process. Round: one pass of the loop.
pub mod Transactions
pub mod Blocks
pub mod Messages
pub mod Round
pub mod System
pub mod Tests
