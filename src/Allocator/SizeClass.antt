-- ===== src/Allocator/SizeClass.antt =====
-- Size classes: orteaf/include/orteaf/internal/execution/allocator/size_class_utils.h, the fast free
-- policy of policies/fast_free/fast_free_policies.h, and `isPowerOfTwo`, `nextPowerOfTwo` and `alignDown`
-- of orteaf/include/orteaf/internal/base/math_utils.h. A `std::size_t` has 64 bits.
use Prim.Native.Nat.{bit_and, bit_or, max}
use orteaf.Prelude.{
  ℕ, zero, suc, ◌+◌, ◌-◌, ◌*◌, ◌/◌, ◌%◌, ◌^◌, Bool, not, ◌&&◌, ◌||◌, ltb, leb, ◌==◌, if◌then◌else◌,
}

-- The least exponent, from `k` on, of a power of two that reaches n; 64 are tried.
unfoldable pub ceil_log_from : ℕ → ℕ → ℕ → ℕ
ceil_log_from zero k n = k
ceil_log_from (suc fuel) k n =
    let rest = ceil_log_from fuel (k + 1) n in if leb n (2 ^ k) then k else rest

unfoldable pub ceil_log : ℕ → ℕ
ceil_log n = ceil_log_from 64 0 n

-- `std::bit_ceil`.
unfoldable pub bit_ceil : ℕ → ℕ
bit_ceil n = 2 ^ ceil_log n

-- `std::countr_zero`.
unfoldable pub countr_zero_from : ℕ → ℕ → ℕ
countr_zero_from zero n = 0
countr_zero_from (suc fuel) n =
    let rest = countr_zero_from fuel (n / 2) in if n % 2 == 1 then 0 else rest + 1

unfoldable pub countr_zero : ℕ → ℕ
countr_zero n = countr_zero_from 64 n

unfoldable pub size_class_index : ℕ → ℕ → ℕ
size_class_index block_size min_block_size =
    if leb block_size min_block_size
    then 0
    else countr_zero (bit_ceil block_size) - countr_zero (bit_ceil min_block_size)

unfoldable pub size_class_count : ℕ → ℕ → ℕ
size_class_count min_block_size max_block_size =
    if ltb max_block_size min_block_size || (min_block_size == 0)
    then 0
    else countr_zero (bit_ceil max_block_size) - countr_zero (bit_ceil min_block_size) + 1

unfoldable pub size_class_to_block_size : ℕ → ℕ → ℕ
size_class_to_block_size index min_block_size = bit_ceil min_block_size * 2 ^ index % 2 ^ 64

-- `FastFreePolicy::get_block_size`.
unfoldable pub get_block_size : ℕ → ℕ → ℕ
get_block_size min_block_size size_bytes = bit_ceil (max min_block_size size_bytes)

-- `SegregatePool::blockSizeFor`.
unfoldable pub block_size_for : ℕ → ℕ → ℕ
block_size_for min_block_size size =
    size_class_to_block_size (size_class_index (max min_block_size size) min_block_size)
      min_block_size

unfoldable pub is_power_of_two : ℕ → Bool
is_power_of_two value = not (value == 0) && (bit_and value (value - 1) == 0)

-- `value |= value >> k`.
abbrev smear : ℕ → ℕ → ℕ
smear k value = bit_or value (value / 2 ^ k)

unfoldable pub next_power_of_two : ℕ → ℕ
next_power_of_two value =
    if leb value 1
    then 1
    else (smear 32 (smear 16 (smear 8 (smear 4 (smear 2 (smear 1 (value - 1)))))) + 1) % 2 ^ 64

unfoldable pub align_down : ℕ → ℕ → ℕ
align_down value alignment = if alignment == 0 then value else value - value % alignment
