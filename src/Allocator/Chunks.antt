-- ===== src/Allocator/Chunks.antt =====
-- The chunk table: a chunk goes back to the resource only while none of its blocks is out, and slots
-- are reused only after that.
use orteaf.Prelude.{
  ℕ, zero, suc, ◌+◌, ◌%◌, ◌^◌, ◌≤◌, ◌<◌, ◌≡◌, ◌≢◌, refl, ap, subst, sym, ◌∙◌, arith, true, false,
  List, [], ◌∷◌, ◌==◌, if◌then◌else◌, length, get_or, set, length-set, Bool-cases, ==→eq, some, inl,
  inr,
}
use orteaf.Prelude.Bits.{bit_and-mask}
use orteaf.Allocator.{Resource, invalid_handle}
use orteaf.Allocator.SegregatePool.{SegregatePool, release_loop, without_chunk}
use orteaf.Allocator.ChunkLocator.{
  ChunkInfo, ChunkLocator, no_chunk, chunk_at, encode_id, index_from_id, is_releasable,
  release_chunk, find_releasable, find_releasable_from,
}

index_from_id-encode_id : (slot : ℕ) → slot < 2 ^ 31 → index_from_id (encode_id slot) ≡ slot
unfolding index_from_id encode_id
index_from_id-encode_id slot h = bit_and-mask 31 _ ∙ omega (arith, bit_and-mask 31 (slot % 2 ^ 32))

-- `findReleasable` returns the handle of a living chunk with no block out, or the invalid handle.
find_releasable_from_lem :
    (chunks : List ChunkInfo) (i : ℕ)
    → i + length chunks ≤ 2 ^ 31
    → find_releasable_from i chunks ≢ invalid_handle
    → (j : ℕ) × (j < length chunks)
      × (find_releasable_from i chunks ≡ encode_id (i + j))
      × (is_releasable (get_or chunks j no_chunk) ≡ true)
unfolding find_releasable_from
find_releasable_from_lem [] i h n = absurd (n refl)
find_releasable_from_lem (c ∷ rest) i h n = elim (Bool-cases (is_releasable c)) [
  | inl b ↦ rw b (0, omega arith, ap encode_id here, b)
  | inr b ↦
      (let later : find_releasable_from i (c ∷ rest) ≡ find_releasable_from (i + 1) rest =
          ap (λ t. if t then encode_id i else find_releasable_from (i + 1) rest) b in
        let r = find_releasable_from_lem rest (i + 1) (omega arith) (λ e. n (later ∙ e)) in
        (suc r.0, omega (arith, r.1), later ∙ r.2 ∙ ap encode_id (next r.0), r.3))
]
  where
    here : i ≡ i + 0
    here = omega arith

    next : (j : ℕ) → i + 1 + j ≡ i + suc j
    next j = omega arith

-- The chunks that are alive.
unfoldable pub living : List ChunkInfo → ℕ
living [] = 0
living (c ∷ rest) = if c.alive then suc (living rest) else living rest

living-set :
    (chunks : List ChunkInfo) (slot : ℕ)
    → slot < length chunks
    → (get_or chunks slot no_chunk).alive ≡ true
    → suc (living (set chunks slot no_chunk)) ≡ living chunks
unfolding living
living-set [] slot h a = absurd (omega arith)
living-set (c ∷ rest) zero h a = rw a refl
living-set (c ∷ rest) (suc slot) h a = ground (arith, living-set rest slot (omega arith) a)

-- The table after a chunk was released.
abbrev emptied : ChunkLocator → ℕ → ChunkLocator
emptied l slot = record l { chunks = set l.chunks slot no_chunk; free_list = slot ∷ l.free_list }

-- A chunk that `findReleasable` names is released.
release_chunk-releasable :
    {World : Type 0} (resource : Resource World) (l : ChunkLocator) (handle : ℕ) (w : World)
    → index_from_id handle < length l.chunks
    → l.has_resource ≡ true
    → is_releasable (chunk_at l (index_from_id handle)) ≡ true
    → ((release_chunk resource l handle w).0 ≡ true)
      × ((release_chunk resource l handle w).1 ≡ emptied l (index_from_id handle))
unfolding release_chunk
release_chunk-releasable resource l handle w h r s = (ground arith, ground arith)

releasable-alive : (c : ChunkInfo) → is_releasable c ≡ true → c.alive ≡ true
releasable-alive c h = ground arith

-- What a round of `releaseChunk` keeps, with the number of living chunks.
abbrev Round : ChunkLocator → ChunkLocator → Type 0
Round l l' =
    (l'.has_resource ≡ true)
    × (length l'.chunks ≡ length l.chunks)
    × (suc (living l'.chunks) ≡ living l.chunks)

emptied-Round :
    (l : ChunkLocator) (slot : ℕ)
    → l.has_resource ≡ true
    → slot < length l.chunks
    → is_releasable (chunk_at l slot) ≡ true
    → Round l (emptied l slot)
emptied-Round l slot has h r = (
  has,
  length-set l.chunks slot no_chunk,
  living-set l.chunks slot h (releasable-alive (chunk_at l slot) r),
)

-- The slot that `findReleasable` names.
named_slot :
    (l : ChunkLocator)
    → length l.chunks ≤ 2 ^ 31
    → find_releasable l ≢ invalid_handle
    → (index_from_id (find_releasable l) < length l.chunks)
      × (is_releasable (chunk_at l (index_from_id (find_releasable l))) ≡ true)
unfolding find_releasable
named_slot l small n =
    let f = find_releasable_from_lem l.chunks 0 (omega arith) n in
    let slot : ℕ = f.0 in
    let at : index_from_id (find_releasable_from 0 l.chunks) ≡ slot =
      ap index_from_id f.2
      ∙ index_from_id-encode_id (0 + slot) (omega (arith, f.1))
      ∙ omega arith in
    (omega (arith, at, f.1), ap (λ (i : ℕ). is_releasable (chunk_at l i)) at ∙ f.3)

round_lem :
    {World : Type 0} (resource : Resource World) (l : ChunkLocator) (w : World)
    → l.has_resource ≡ true
    → length l.chunks ≤ 2 ^ 31
    → find_releasable l ≢ invalid_handle
    → ((release_chunk resource l (find_releasable l) w).0 ≡ true)
      × Round l (release_chunk resource l (find_releasable l) w).1
round_lem resource l w has small n =
    let s = named_slot l small n in
    let q = release_chunk-releasable resource l (find_releasable l) w (s.0) has s.1 in
    (
      q.0,
      subst (Round l) (sym q.1) (emptied-Round l (index_from_id (find_releasable l)) has (s.0) s.1),
    )

-- Enough rounds for the living chunks bring the loop of `releaseChunk` to its end, with no chunk left
-- that could be released.
release_loop_lem :
    {World : Type 0} (resource : Resource World) (fuel : ℕ) (p : SegregatePool) (w : World)
    → (p.locator).has_resource ≡ true
    → length (p.locator).chunks ≤ 2 ^ 31
    → living (p.locator).chunks < fuel
    → (r : SegregatePool × World) × (release_loop resource fuel p w ≡ some r)
      × (find_releasable (r.0).locator ≡ invalid_handle)
unfolding release_loop
release_loop_lem resource zero p w has small h = absurd (omega arith)
release_loop_lem resource (suc fuel) p w has small h =
    elim (Bool-cases (find_releasable (p.locator) == invalid_handle)) [
      | inl b ↦ rw b ((p, w), refl, ==→eq _ _ b)
      | inr b ↦
          (let handle : ℕ = find_releasable (p.locator) in
            let q = round_lem resource (p.locator) w has small (other_handle b) in
            let done = release_chunk resource (p.locator) handle w in
            let r =
              release_loop_lem resource fuel (without_chunk p handle (done.1)) (done.2) (q.1.0)
                (omega (arith, q.1.1)) (omega (arith, q.1.2)) in
            rw (b, q.0) r)
    ]
  where
    other_handle :
        (find_releasable (p.locator) == invalid_handle) ≡ false
        → find_releasable (p.locator) ≢ invalid_handle
    other_handle b e = ground (arith, b, e)

living-length : (chunks : List ChunkInfo) → living chunks ≤ length chunks
unfolding living
living-length [] = omega arith
living-length (c ∷ rest) = ground (arith, living-length rest)

-- Where the chunk table has a resource and at most 2^31 chunks, the loop of `releaseChunk` comes to its
-- end within one round more than there are chunks, and `findReleasable` names no chunk then.
pub release_loop-ends :
    {World : Type 0} (resource : Resource World) (p : SegregatePool) (w : World)
    → (p.locator).has_resource ≡ true
    → length (p.locator).chunks ≤ 2 ^ 31
    → (r : SegregatePool × World) × (release_loop resource (suc (length (p.locator).chunks)) p w
        ≡ some r)
      × (find_releasable (r.0).locator ≡ invalid_handle)
release_loop-ends resource p w has small =
    release_loop_lem resource (suc (length (p.locator).chunks)) p w has small
      (omega (arith, living-length (p.locator).chunks))
