-- ===== src/Memory/Tests.antt =====
-- Examples for src/SHMManagement.c.
use projeto_so.Base.{ℕ, ◌+◌, ◌≤◌, ◌≡◌, refl, some, arith, get_elem?}
use projeto_so.Memory.{
  BlockInterface, interface_tx_block, interface_blocks, interface_ledger, shm_ledger_size,
  shm_transactionspool_size, slot_offset,
}
use projeto_so.Memory.Regions.{stride, BlockRegion, interface_ledger-Regions}

-- The sizes for the values of config.cfg.
configured_sizes :
    (shm_ledger_size 10 50000 ≡ 48_000_088)
    × (shm_transactionspool_size 50 ≡ 4424)
    × (slot_offset 49 ≡ 4336)
unfolding shm_ledger_size shm_transactionspool_size slot_offset
configured_sizes = (refl, refl, refl)

abbrev at : ℕ → BlockInterface
at offset = record { block = offset; transactions = offset + 160 }

second_block : get_elem? (interface_ledger 1 3) 1 ≡ some (at 328)
unfolding interface_ledger interface_blocks interface_tx_block
second_block = refl

third_block : get_elem? (interface_ledger 1 3) 2 ≡ some (at 568)
unfolding interface_ledger interface_blocks interface_tx_block
third_block = refl

interface_ledger-Regions_example :
    BlockRegion 1 3 1 (at 328) × BlockRegion 1 3 2 (at 568) × (328 + stride 1 ≤ 568)
interface_ledger-Regions_example =
    interface_ledger-Regions 1 3 1 2 (at 328) (at 568) (omega arith) second_block third_block
      (omega arith)
