-- ===== src/Memory/Regions.antt =====
-- The places that src/SHMManagement.c gives to the blocks of the ledger.
use native.Mathlib.Nat.{mul-add}
use projeto_so.Base.{
  ℕ, zero, suc, ◌+◌, ◌*◌, ◌%◌, ◌^◌, ◌≤◌, ◌<◌, ◌≡◌, sym, ap, ◌∙◌, some, some_inj, arith, get_elem?,
}
use projeto_so.Chain.Layout.{transaction_size, block_shm_size, ledger_header_size}
use projeto_so.Memory.{
  BlockInterface, interface_tx_block, interface_blocks, interface_ledger, shm_ledger_size,
}

-- The bytes of a block with its `n` transactions.
abbrev pub stride : ℕ → ℕ
stride n = block_shm_size + n * transaction_size

suc_mul : (i x : ℕ) → suc i * x ≡ x + i * x
suc_mul i x = omega arith

mul_le : (i j x : ℕ) → i ≤ j → i * x ≤ j * x
mul_le zero j x h = omega arith
mul_le (suc i) zero x h = absurd (omega arith)
mul_le (suc i) (suc j) x h = omega (arith, suc_mul i x, suc_mul j x, mul_le i j x (omega arith))

interface_blocks-get :
    (n left offset i : ℕ) (b : BlockInterface)
    → get_elem? (interface_blocks n left offset) i ≡ some b
    → (i < left) × (b ≡ interface_tx_block (offset + i * stride n))
unfolding interface_blocks
interface_blocks-get n zero offset i b e = cc
interface_blocks-get n (suc left) offset zero b e =
    (omega arith, sym (some_inj e) ∙ ap interface_tx_block (omega arith))
interface_blocks-get n (suc left) offset (suc i) b e =
    let (lt, same) = interface_blocks-get n left (offset + stride n) i b e in
    (omega arith, same ∙ ap interface_tx_block (omega (arith, suc_mul i (stride n))))

-- The bytes of a block of the ledger: its header, the transactions behind it, and the end.
pub record BlockRegion (n num_blocks i : ℕ) (b : BlockInterface) : Type 0 where
  pub behind_header : ledger_header_size ≤ b.block
  pub transactions : b.transactions ≡ b.block + block_shm_size
  pub inside : b.block + stride n ≤ shm_ledger_size n num_blocks
  pub aligned : b.block % 8 ≡ 0
  pub position : b.block ≡ ledger_header_size + i * stride n

position :
    (n i : ℕ) (b : BlockInterface)
    → b ≡ interface_tx_block (ledger_header_size + i * stride n)
    → b.block ≡ ledger_header_size + i * stride n
unfolding interface_tx_block
position n i b e = ap (λ (x : BlockInterface). x.block) e

stride-multiple : (n i : ℕ) → (ledger_header_size + i * stride n) % 8 ≡ 0
stride-multiple n zero = omega arith
stride-multiple n (suc i) = omega (arith, suc_mul i (stride n), stride-multiple n i)

ledger_size :
    (n num_blocks : ℕ)
    → ledger_header_size + num_blocks * stride n < 2 ^ 31
    → shm_ledger_size n num_blocks ≡ ledger_header_size + num_blocks * stride n
unfolding shm_ledger_size
ledger_size n num_blocks small =
    omega (arith, small, mul-add num_blocks block_shm_size (n * transaction_size))

region :
    (n num_blocks i : ℕ) (b : BlockInterface)
    → ledger_header_size + num_blocks * stride n < 2 ^ 31
    → i < num_blocks
    → b ≡ interface_tx_block (ledger_header_size + i * stride n)
    → BlockRegion n num_blocks i b
unfolding interface_tx_block
region n num_blocks i b small lt e =
    let p = position n i b e in
    record {
      behind_header = omega (arith, p);
      transactions =
          ap (λ (x : BlockInterface). x.transactions) e ∙ ap (λ k. k + block_shm_size) (sym p);
      inside = omega (
        arith,
        p,
        ledger_size n num_blocks small,
        suc_mul i (stride n),
        mul_le (suc i) num_blocks (stride n) (omega arith),
      );
      aligned = ap (λ k. k % 8) p ∙ stride-multiple n i;
      position = p;
    }

-- The pointers of interfaceLedger lead each block to a place of its own: behind the header, inside
-- the segment that main makes, aligned to 8 bytes, and before those of all later blocks; if the
-- size of the segment fits an int.
pub interface_ledger-Regions :
    (n num_blocks i j : ℕ) (b c : BlockInterface)
    → ledger_header_size + num_blocks * stride n < 2 ^ 31
    → get_elem? (interface_ledger n num_blocks) i ≡ some b
    → get_elem? (interface_ledger n num_blocks) j ≡ some c
    → i < j
    → BlockRegion n num_blocks i b × BlockRegion n num_blocks j c × (b.block + stride n ≤ c.block)
unfolding interface_ledger
interface_ledger-Regions n num_blocks i j b c small eb ec lt =
    let (hi, sb) = interface_blocks-get n num_blocks ledger_header_size i b eb in
    let (hj, sc) = interface_blocks-get n num_blocks ledger_header_size j c ec in
    let pb = position n i b sb in
    let pc = position n j c sc in
    (
      region n num_blocks i b small hi sb,
      region n num_blocks j c small hj sc,
      omega (arith, pb, pc, suc_mul i (stride n), mul_le (suc i) j (stride n) (omega arith)),
    )
