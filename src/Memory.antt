-- ===== src/Memory.antt =====
-- src/SHMManagement.c: the interfaces that lead from the base of a shared segment to its parts, as
-- offsets in bytes, and the sizes that main of src/Controller.c gives to the segments.
pub mod Regions
pub mod Tests
use projeto_so.Base.{ℕ, zero, suc, ◌+◌, ◌*◌, List, [], ◌∷◌, u32}
use projeto_so.Chain.Layout.{
  transaction_size, pending_size, pool_header_size, block_shm_size, ledger_header_size,
}

-- Where a block and its transactions start.
pub record BlockInterface : Type 0 where
  pub block : ℕ
  pub transactions : ℕ

unfoldable pub interface_tx_block : ℕ → BlockInterface
interface_tx_block block_offset =
    let transactions_offset = block_shm_size in
    record { block = block_offset; transactions = block_offset + transactions_offset }

-- The loop of interfaceLedger over the blocks that are left, with the offset of the next one.
unfoldable pub interface_blocks : ℕ → ℕ → ℕ → List BlockInterface
unfolding interface_tx_block
interface_blocks n zero blocks_offset = []
interface_blocks n (suc left) blocks_offset =
    interface_tx_block blocks_offset
    ∷ interface_blocks n left (blocks_offset + (block_shm_size + n * transaction_size))

-- interfaceLedger on the segment that main sets up: blocks_offset is the size of the header.
unfoldable pub interface_ledger : ℕ → ℕ → List BlockInterface
unfolding interface_blocks
interface_ledger n num_blocks = interface_blocks n num_blocks ledger_header_size

-- shm_ledger_size, an `int`.
unfoldable pub shm_ledger_size : ℕ → ℕ → ℕ
shm_ledger_size n blockchain_blocks = u32 (
    ledger_header_size
    + (blockchain_blocks * block_shm_size + blockchain_blocks * (n * transaction_size)))

-- Where interfaceTxPool finds the slot `i`, behind the header of the segment.
unfoldable pub slot_offset : ℕ → ℕ
slot_offset i = pool_header_size + i * pending_size

-- shm_transactionspool_size, an `int`.
unfoldable pub shm_transactionspool_size : ℕ → ℕ
shm_transactionspool_size pool_size = u32 (pool_header_size + pool_size * pending_size)
