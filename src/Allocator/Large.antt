-- ===== src/Allocator/Large.antt =====
-- Handles of large allocations
-- (orteaf/include/orteaf/internal/execution/allocator/policies/large_alloc/direct_resource_large_alloc.h).
use Prim.Native.Nat.{bit_and, bit_or}
use orteaf.Prelude.{
  ℕ, ◌+◌, ◌*◌, ◌/◌, ◌%◌, ◌^◌, ◌<◌, ◌≡◌, ◌≢◌, sym, ap, ◌∙◌, arith, true, false, not, ◌==◌,
}
use orteaf.Prelude.Bits.{bit_and-mask, bit_and-bit, bit_or-add_low}
use orteaf.Allocator.ChunkLocator
use orteaf.Allocator.LargeAlloc.{encode_id, index_from_id, is_large_alloc}

-- A large handle is its index with bit 31 set.
encode_id_lem : (index : ℕ) → index < 2 ^ 31 → encode_id index ≡ 2 ^ 31 + index
unfolding encode_id
encode_id_lem index h =
    ap (λ t. bit_or t (2 ^ 31)) small ∙ bit_or-add_low 31 index 1 h ∙ omega arith
  where
    small : index % 2 ^ 32 ≡ index
    small = omega arith

pub index_from_id-encode_id : (index : ℕ) → index < 2 ^ 31 → index_from_id (encode_id index) ≡ index
unfolding index_from_id
index_from_id-encode_id index h =
    bit_and-mask 31 (encode_id index) ∙ omega (arith, encode_id_lem index h)

pub is_large_alloc-encode_id :
    (index : ℕ) → index < 2 ^ 31 → is_large_alloc (encode_id index) ≡ true
unfolding is_large_alloc
is_large_alloc-encode_id index h =
    ap (λ t. not (t == 0)) (bit_and-bit 31 (encode_id index) ∙ one_bit)
  where
    one_bit : encode_id index / 2 ^ 31 % 2 * 2 ^ 31 ≡ 2 ^ 31
    one_bit = omega (arith, encode_id_lem index h)

-- No handle of a chunk is taken for a large one.
pub chunk_small : (slot : ℕ) → is_large_alloc (ChunkLocator.encode_id slot) ≡ false
unfolding is_large_alloc ChunkLocator.encode_id
chunk_small slot =
    ap (λ t. not (bit_and t (2 ^ 31) == 0)) (bit_and-mask 31 (slot % 2 ^ 32))
    ∙ ap (λ t. not (t == 0)) (bit_and-bit 31 (slot % 2 ^ 32 % 2 ^ 31) ∙ no_bit)
  where
    no_bit : slot % 2 ^ 32 % 2 ^ 31 / 2 ^ 31 % 2 * 2 ^ 31 ≡ 0
    no_bit = omega arith

-- Large handles of 32 bits with one index are equal.
pub handle-of_index :
    (handle index : ℕ)
    → is_large_alloc handle ≡ true
    → handle < 2 ^ 32
    → index_from_id handle ≡ index
    → index < 2 ^ 31
    → handle ≡ encode_id index
unfolding is_large_alloc index_from_id
handle-of_index handle index large wide same small =
    let bit = bit_and-bit 31 handle in
    let low : handle % 2 ^ 31 ≡ index = sym (bit_and-mask 31 handle) ∙ same in
    let set_bit : bit_and handle (2 ^ 31) ≢ 0 = ground (arith, large) in
    omega (arith, bit, low, set_bit, encode_id_lem index small)
