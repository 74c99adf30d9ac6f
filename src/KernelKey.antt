-- ===== src/KernelKey.antt =====
-- `KernelKey` of orteaf/include/orteaf/internal/kernel/core/kernel_key.h: six fields packed into
-- 64 bits. The enumerations that make up a key are their underlying numbers. `getExecution` reads
-- generated tables and is left out.
pub mod Packing
mod Tests
use Prim.Native.Nat.{bit_and, bit_or}
use orteaf.Prelude.{ℕ, ◌-◌, ◌*◌, ◌/◌, ◌%◌, ◌^◌}

-- `value << k` and `value >> k` on `std::uint64_t`.
abbrev shl64 : ℕ → ℕ → ℕ
shl64 value k = value * 2 ^ k % 2 ^ 64

abbrev shr64 : ℕ → ℕ → ℕ
shr64 value k = value / 2 ^ k

abbrev pub current_version : ℕ
current_version = 0

abbrev dtype_shift : ℕ
dtype_shift = 0

abbrev op_shift : ℕ
op_shift = 12

abbrev architecture_shift : ℕ
architecture_shift = 28

abbrev layout_shift : ℕ
layout_shift = 44

abbrev variant_shift : ℕ
variant_shift = 52

abbrev version_shift : ℕ
version_shift = 60

abbrev dtype_mask : ℕ
dtype_mask = 0xFFF

abbrev op_mask : ℕ
op_mask = 0xFFFF

abbrev architecture_mask : ℕ
architecture_mask = 0xFFFF

abbrev layout_mask : ℕ
layout_mask = 0xFF

abbrev variant_mask : ℕ
variant_mask = 0xFF

abbrev version_mask : ℕ
version_mask = 0xF

pub make : ℕ → ℕ → ℕ → ℕ → ℕ → ℕ → ℕ
make op architecture layout dtype variant version =
    let version_bits = shl64 (bit_and version version_mask) version_shift in
    let variant_bits = shl64 (bit_and variant variant_mask) variant_shift in
    let layout_bits = shl64 (bit_and layout layout_mask) layout_shift in
    let arch_bits = shl64 (bit_and architecture architecture_mask) architecture_shift in
    let op_bits = shl64 (bit_and op op_mask) op_shift in
    let dtype_bits = shl64 (bit_and dtype dtype_mask) dtype_shift in
    bit_or
      (bit_or (bit_or (bit_or (bit_or version_bits variant_bits) layout_bits) arch_bits) op_bits)
      dtype_bits

-- The casts to narrower types keep all masked bits.
pub get_version : ℕ → ℕ
get_version key = bit_and (shr64 key version_shift) version_mask % 2 ^ 8

pub get_op : ℕ → ℕ
get_op key = bit_and (shr64 key op_shift) op_mask % 2 ^ 16

pub get_architecture : ℕ → ℕ
get_architecture key = bit_and (shr64 key architecture_shift) architecture_mask % 2 ^ 16

pub get_layout : ℕ → ℕ
get_layout key = bit_and (shr64 key layout_shift) layout_mask

pub get_dtype : ℕ → ℕ
get_dtype key = bit_and (shr64 key dtype_shift) dtype_mask % 2 ^ 16

pub get_variant : ℕ → ℕ
get_variant key = bit_and (shr64 key variant_shift) variant_mask
