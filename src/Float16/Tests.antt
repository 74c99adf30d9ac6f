-- ===== src/Float16/Tests.antt =====
-- Conversions at concrete bits.
use orteaf.Prelude.{ℕ, ◌+◌, ◌-◌, ◌*◌, ◌/◌, ◌^◌, ◌≡◌, refl, inl, arith, some}
use orteaf.Float16.{float32_to_half_bits, half_bits_to_float32, special_to_half, normal_to_half}
use orteaf.Float16.Normal.{sign32, exponent32, mantissa32, float32_to_half_bits-normal}
use orteaf.Float16.RoundTrip.{float32_to_half_bits-half_bits_to_float32}
use orteaf.Float16.Subnormal.{KeepsValue, ComesBackLossy, half_bits_to_float32-subnormal}

-- 1.0f is 0x3f800000, and 1.0 in binary16 is 0x3c00.
one_to_half : float32_to_half_bits 0x3f800000 ≡ 0x3c00
unfolding float32_to_half_bits normal_to_half
one_to_half = refl

one_from_half : half_bits_to_float32 0x3c00 ≡ some 0x3f800000
unfolding half_bits_to_float32
one_from_half = refl

-- A NaN keeps a NaN.
nan_to_half : float32_to_half_bits 0x7fc00001 ≡ 0x7e01
unfolding float32_to_half_bits special_to_half
nan_to_half = refl

-- The largest subnormal of binary32 underflows to zero.
tiny_to_half : float32_to_half_bits 0x807fffff ≡ 0x8000
unfolding float32_to_half_bits
tiny_to_half = refl

-- A tie between 1.0 and the next binary16 goes up, to the odd mantissa.
float32_to_half_bits-normal_example :
    float32_to_half_bits 0x3f801000
    ≡ sign32 0x3f801000 * 2 ^ 15
      + (exponent32 0x3f801000 - 112) * 2 ^ 10
      + (mantissa32 0x3f801000 + 2 ^ 12) / 2 ^ 13
float32_to_half_bits-normal_example =
    float32_to_half_bits-normal 0x3f801000 (omega arith) (omega arith)

float32_to_half_bits-half_bits_to_float32_example :
    (b : ℕ) × (half_bits_to_float32 0xc248 ≡ some b) × (float32_to_half_bits b ≡ 0xc248)
float32_to_half_bits-half_bits_to_float32_example =
    float32_to_half_bits-half_bits_to_float32 0xc248 (omega arith) (inl (omega arith, omega arith))

half_bits_to_float32-subnormal_example :
    (b : ℕ) × (half_bits_to_float32 (1 * 2 ^ 15 + 5) ≡ some b)
    × KeepsValue 1 5 b
    × ComesBackLossy 1 5 b
half_bits_to_float32-subnormal_example =
    half_bits_to_float32-subnormal 1 5 (omega arith) (omega arith) (omega arith)
