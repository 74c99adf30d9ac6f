-- ===== src/BlockVector/Tests.antt =====
-- Runs of `RuntimeBlockVector`.
use orteaf.Prelude.{ℕ, ◌*◌, ◌+◌, ◌-◌, ◌^◌, ◌<◌, ◌≡◌, refl, List, [], ◌∷◌, arith}
use orteaf.BlockVector
use orteaf.BlockVector.{
  BlockVector, make, run, size, ptr_at, Call, resizes, emplaces, resizes_blocks, pops,
}
use orteaf.BlockVector.Laws.{Fits, AllFit, run-ptr_at}

abbrev empty_vector : BlockVector ℕ
empty_vector = record { items = []; blocks = 0; capacity = 0; block_size = 4 }

abbrev calls : List (Call ℕ)
calls = resizes 6 ∷ emplaces 9 ∷ resizes_blocks 3 ∷ pops ∷ emplaces 8 ∷ []

run-calls :
    run 0 empty_vector calls
    ≡ record { items = 0 ∷ 0 ∷ 0 ∷ 0 ∷ 0 ∷ 0 ∷ 8 ∷ []; blocks = 3; capacity = 9; block_size = 3 }
unfolding run BlockVector.blocks_for BlockVector.step BlockVector.resize
    BlockVector.ensure_capacity_for BlockVector.emplace_back BlockVector.resize_blocks
    BlockVector.pop_back
run-calls = refl

calls-AllFit : AllFit 0 empty_vector calls
unfolding AllFit Fits size run BlockVector.blocks_for BlockVector.step BlockVector.emplace_back
    BlockVector.pop_back BlockVector.resize_blocks BlockVector.ensure_capacity_for
    BlockVector.resize
calls-AllFit = (omega arith, (omega arith, (omega arith, (tt, (omega arith, tt)))))

-- With the largest block size the round-up wraps: two elements get no block.
resize_wraps :
    BlockVector.resize 0 (record empty_vector { block_size = 2 ^ 64 - 1 }) 2
    ≡ record { items = 0 ∷ 0 ∷ []; blocks = 0; capacity = 0; block_size = 2 ^ 64 - 1 }
unfolding BlockVector.resize BlockVector.ensure_capacity_for BlockVector.blocks_for size
resize_wraps = refl

run-ptr_at_example :
    let w = run 0 empty_vector calls in
    (w.capacity ≡ w.blocks * w.block_size)
    × ((ptr_at w 5).0 < w.blocks)
    × ((ptr_at w 5).1 < w.block_size)
    × (w.block_size * (ptr_at w 5).0 + (ptr_at w 5).1 ≡ 5)
unfolding make size run BlockVector.blocks_for BlockVector.step BlockVector.emplace_back
    BlockVector.pop_back BlockVector.resize_blocks BlockVector.ensure_capacity_for
    BlockVector.resize
run-ptr_at_example = run-ptr_at 0 4 empty_vector calls 5 refl calls-AllFit (omega arith)
