-- ===== src/Samples/Systems.antt =====
-- Runs of the processes for the tests: a pool and a ledger with one validator that takes a block.
use projeto_so.Base.{ℕ, refl, sym, [], ◌∷◌, arith}
use projeto_so.Validator.Blocks.{zero_block}
use projeto_so.Validator.Round.{reading, received, advance}
use projeto_so.Validator.System.{System, Minable, mine, read, run, Reach, here, next, update}
use projeto_so.Validator.System.Runs.{IsSound}
use projeto_so.Samples.{
  zero_sha, pool_of_one, pool_of_one-IsPool, ledger_of_one, ledger_of_one-IsLinked, mined_block,
  mined_block-IsPaddedBlock, compute_sha256-zero,
}

abbrev pub at_start : System
at_start = record {
  shared = record { pool = pool_of_one; ledger = ledger_of_one; queue = [] };
  phase = λ i. reading;
  pipe = [];
}

pub at_start-IsSound : IsSound zero_sha 1 at_start
at_start-IsSound = record {
  pool = pool_of_one-IsPool;
  ledger = ledger_of_one-IsLinked;
  phases = λ i. tt;
  pipe = tt;
}

pub mined_block-Minable : Minable zero_sha 1 ledger_of_one mined_block
mined_block-Minable = record {
  padded = mined_block-IsPaddedBlock;
  base = 0;
  parent = zero_block 1;
  there = refl;
  below = omega arith;
  room = omega arith;
  linked = sym (compute_sha256-zero (zero_block 1));
}

abbrev pub with_block : System
with_block = record at_start { pipe = mined_block ∷ [] }

abbrev pub after_read : System
after_read = record at_start { phase = update at_start.phase 1 (received mined_block); pipe = [] }

abbrev pub ran : System → ℕ → System
ran s now = record s {
  shared = (advance zero_sha 1 now (s.phase 1) s.shared).1;
  phase = update s.phase 1 (advance zero_sha 1 now (s.phase 1) s.shared).0;
}

pub read_once : Reach zero_sha 1 at_start after_read
read_once =
    next (next here (mine mined_block mined_block-Minable)) (read 1 mined_block [] refl refl)

-- One validator takes the block, tests it, takes its transaction out of the pool and appends it.
pub full_pass : Reach zero_sha 1 at_start (ran (ran (ran after_read 10) 11) 12)
full_pass = next (next (next read_once (run 1 10)) (run 1 11)) (run 1 12)
