-- ===== src/Pipe/Tests.antt =====
-- Examples for the validation pipe.
use projeto_so.Base.{◌≡◌, ◌≢◌, [], ◌∷◌, arith, take}
use projeto_so.Pipe.{encode_block, max_block_size, received, decode_block, read_blocks}
use projeto_so.Pipe.Stream.{written, read_blocks-written, decode_block-truncated}
use projeto_so.Samples.{mined_block, mined_block-IsBlock}

read_blocks-written_example :
    read_blocks 3 1 (written 1 (mined_block ∷ mined_block ∷ [])) ≡ mined_block ∷ mined_block ∷ []
read_blocks-written_example =
    read_blocks-written 3 1 (mined_block ∷ mined_block ∷ []) (omega arith)
      (mined_block-IsBlock, (mined_block-IsBlock, tt)) (omega arith)

decode_block-truncated_example :
    decode_block 1 (take 100 (encode_block 1 mined_block)) ≢ received mined_block
unfolding max_block_size
decode_block-truncated_example =
    decode_block-truncated 1 100 mined_block mined_block (omega arith) mined_block-IsBlock
      (omega arith)
