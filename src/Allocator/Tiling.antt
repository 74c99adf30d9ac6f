-- ===== src/Allocator/Tiling.antt =====
-- `expand` cuts a chunk into blocks that lie side by side.
use orteaf.Prelude.{
  ℕ, zero, suc, ◌+◌, ◌-◌, ◌*◌, ◌/◌, ◌≤◌, ◌<◌, ◌≡◌, refl, ap, subst, ◌∙◌, arith, true, List, [], ◌∷◌,
  ◌++◌, leb, ==_false, length, get_or, take, replicate, get_or-set_self, length-set, length-append,
  length-replicate, Bool-cases, inl, inr, leb→le,
}
use orteaf.Diagnostics.{ok}
use orteaf.Allocator.{BufferBlock, is_valid}
use orteaf.Allocator.Freelist.{
  Freelist, stack_at, push_back, block_in, expand_loop, expand, ensure_capacity,
}
use native.Mathlib.Nat.{div-add-mod, zero-add}

-- Blocks of one chunk, from the end of the chunk's used part down to `start`: each ends where the
-- one before it begins.
abbrev pub Tiles : ℕ → ℕ → ℕ → ℕ → List BufferBlock → Type 0
Tiles handle size start end [] = start ≡ end
Tiles handle size start end (b ∷ rest) =
    (b.handle ≡ handle)
    × ((b.view).size ≡ size)
    × ((b.view).offset + size ≡ end)
    × Tiles handle size start ((b.view).offset) rest

-- The blocks `i`, ..., `i + count - 1`, the last one first.
unfoldable pub blocks_down : BufferBlock → ℕ → ℕ → ℕ → List BufferBlock
blocks_down chunk block_size i zero = []
blocks_down chunk block_size i (suc count) =
    block_in chunk block_size (i + count) ∷ blocks_down chunk block_size i count

-- The first block of a run stands at its end.
blocks_down-first :
    (chunk : BufferBlock) (block_size i count : ℕ) (old : List BufferBlock)
    → blocks_down chunk block_size (i + 1) count ++ (block_in chunk block_size i ∷ old)
      ≡ blocks_down chunk block_size i (suc count) ++ old
unfolding blocks_down
blocks_down-first chunk size i zero old = ap (λ k. block_in chunk size k ∷ old) same
  where
    same : i ≡ i + 0
    same = omega arith
blocks_down-first chunk size i (suc count) old =
    ap (λ (bs : List BufferBlock). block_in chunk size (i + 1 + count) ∷ bs)
      (blocks_down-first chunk size i count old)
    ∙ ap
        (λ k.
          block_in chunk size k
          ∷ block_in chunk size (i + count)
          ∷ (blocks_down chunk size i count ++ old))
        same
  where
    same : i + 1 + count ≡ i + suc count
    same = omega arith

expand_loop-stack_at :
    (chunk : BufferBlock) (size index i count : ℕ) (l : Freelist)
    → index < length l.stacks
    → stack_at (expand_loop chunk size index i count l) index
      ≡ blocks_down chunk size i count ++ stack_at l index
unfolding expand_loop blocks_down
expand_loop-stack_at chunk size index i zero l h = refl
expand_loop-stack_at chunk size index i (suc count) l h =
    expand_loop-stack_at chunk size index (i + 1) count (push_back (block_in chunk size i) l index)
      (omega (arith, length-set l.stacks index (block_in chunk size i ∷ stack_at l index)))
    ∙ ap (λ (bs : List BufferBlock). blocks_down chunk size (i + 1) count ++ bs)
        (get_or-set_self l.stacks index (block_in chunk size i ∷ stack_at l index) [] h)
    ∙ blocks_down-first chunk size i count (stack_at l index)

step_offset : (o i n s : ℕ) → o + (i + n) * s + s ≡ o + (i + suc n) * s
step_offset o i n s = grind arith

blocks_down-Tiles :
    (chunk : BufferBlock) (size i count : ℕ)
    → Tiles chunk.handle size
        ((chunk.view).offset + i * size)
        ((chunk.view).offset + (i + count) * size)
        (blocks_down chunk size i count)
unfolding blocks_down block_in
blocks_down-Tiles chunk size i zero = grind arith
blocks_down-Tiles chunk size i (suc count) = (
  refl,
  refl,
  step_offset ((chunk.view).offset) i count size,
  blocks_down-Tiles chunk size i count,
)

length-blocks_down :
    (chunk : BufferBlock) (size i count : ℕ) → length (blocks_down chunk size i count) ≡ count
unfolding blocks_down
length-blocks_down chunk size i zero = refl
length-blocks_down chunk size i (suc count) = ap suc (length-blocks_down chunk size i count)

from_zero :
    (chunk : BufferBlock) (size count : ℕ) (blocks : List BufferBlock)
    → Tiles chunk.handle size
        ((chunk.view).offset + 0 * size)
        ((chunk.view).offset + (0 + count) * size)
        blocks
    → Tiles chunk.handle size ((chunk.view).offset) ((chunk.view).offset + count * size) blocks
from_zero chunk size count blocks h =
    subst (λ (a : ℕ). Tiles chunk.handle size a ((chunk.view).offset + count * size) blocks) start
      (subst (λ (b : ℕ). Tiles chunk.handle size ((chunk.view).offset + 0 * size) b blocks) end h)
  where
    start : (chunk.view).offset + 0 * size ≡ (chunk.view).offset
    start = omega arith

    end : (chunk.view).offset + (0 + count) * size ≡ (chunk.view).offset + count * size
    end = ap (λ (k : ℕ). (chunk.view).offset + k * size) (zero-add count)

-- New stacks are empty.
take-all : (n : ℕ) (xs : List (List BufferBlock)) → length xs ≤ n → take n xs ≡ xs
take-all zero [] h = refl
take-all zero (x ∷ xs) h = absurd (omega arith)
take-all (suc n) [] h = refl
take-all (suc n) (x ∷ xs) h =
    ap (λ (ys : List (List BufferBlock)). x ∷ ys) (take-all n xs (omega arith))

get_or-replicate : (n i : ℕ) → get_or {A = List BufferBlock} (replicate n []) i [] ≡ []
get_or-replicate zero i = refl
get_or-replicate (suc n) zero = refl
get_or-replicate (suc n) (suc i) = get_or-replicate n i

get_or-append-replicate :
    (xs : List (List BufferBlock)) (n i : ℕ) → get_or (xs ++ replicate n []) i [] ≡ get_or xs i []
get_or-append-replicate [] n i = get_or-replicate n i
get_or-append-replicate (x ∷ xs) n zero = refl
get_or-append-replicate (x ∷ xs) n (suc i) = get_or-append-replicate xs n i

ensure_capacity_lem :
    (index : ℕ) (l : Freelist)
    → (index < length (ensure_capacity index l).stacks)
      × (stack_at (ensure_capacity index l) index ≡ stack_at l index)
unfolding ensure_capacity
ensure_capacity_lem index l = elim (Bool-cases (leb (length l.stacks) index)) [
  | inl b ↦
      rw (b, take-all (index + 1) l.stacks (omega (arith, leb→le (length l.stacks) index b)))
        (
          omega (
            arith,
            length-append l.stacks (replicate (index + 1 - length l.stacks) []),
            length-replicate {A = List BufferBlock} (index + 1 - length l.stacks) [],
            leb→le (length l.stacks) index b,
          ),
          get_or-append-replicate l.stacks (index + 1 - length l.stacks) index,
        )
  | inr b ↦ rw b (ground (arith, b), refl)
]

-- `expand` of a valid chunk into blocks of a size that is not 0 puts as many blocks on the stack of
-- its class as fit the chunk. They have the chunk's handle and that size, lie side by side from the
-- chunk's offset on, and end inside the chunk.
pub expand_lem :
    (l : Freelist) (index : ℕ) (chunk : BufferBlock) (chunk_size size : ℕ)
    → l.has_resource ≡ true
    → is_valid chunk ≡ true
    → 0 < size
    → (q : Freelist) × (blocks : List BufferBlock) × (expand l index chunk chunk_size size ≡ ok q)
      × (stack_at q index ≡ blocks ++ stack_at l index)
      × (length blocks ≡ chunk_size / size)
      × Tiles chunk.handle size
          ((chunk.view).offset)
          ((chunk.view).offset + chunk_size / size * size)
          blocks
      × (chunk_size / size * size ≤ chunk_size)
unfolding expand
expand_lem l index chunk chunk_size size has valid h =
    let e = ensure_capacity_lem index l in
    let ready = ensure_capacity index l in
    let count : ℕ = chunk_size / size in
    (
      expand_loop chunk size index 0 count ready,
      blocks_down chunk size 0 count,
      rw (has, valid, ==_false size 0 (omega arith)) refl,
      expand_loop-stack_at chunk size index 0 count ready (e.0)
          ∙ ap (λ (bs : List BufferBlock). blocks_down chunk size 0 count ++ bs) (e.1),
      length-blocks_down chunk size 0 count,
      from_zero chunk size count (blocks_down chunk size 0 count)
          (blocks_down-Tiles chunk size 0 count),
      grind (arith, div-add-mod chunk_size size),
    )
