-- ===== src/Float16.antt =====
-- The conversions of orteaf/include/orteaf/internal/dtype/float16.h between the bits of binary32 and
-- of binary16. `bitCast` between a float and its bits is the identity here: a `float` is given by
-- its 32 bits. The differences that the code computes in `int` are written without negative
-- numbers: `half_exponent` is `exponent - 112`, so `half_exponent <= 0` is `exponent <= 112`.
pub mod Normal
pub mod RoundTrip
pub mod Subnormal
mod Tests
use Prim.Native.Nat.{bit_and, bit_or}
use orteaf.Prelude.{
  ℕ, zero, suc, ◌+◌, ◌-◌, ◌*◌, ◌/◌, ◌%◌, ◌^◌, Bool, true, false, ◌&&◌, ◌||◌, Option, none, some,
  ltb, leb, ◌==◌, if◌then◌else◌,
}
use mathlib.Core.Option

-- `static_cast<std::uint16_t>`.
abbrev u16 : ℕ → ℕ
u16 x = x % 2 ^ 16

-- `value << k` on `std::uint32_t`.
abbrev shl32 : ℕ → ℕ → ℕ
shl32 value k = value * 2 ^ k % 2 ^ 32

-- The branch for infinities and NaNs.
special_to_half : ℕ → ℕ → ℕ
special_to_half sign mantissa =
    if mantissa == 0
    then u16 (bit_or sign 0x7c00)
    else let nan = u16 (bit_or (bit_or sign 0x7c00) (mantissa / 2 ^ 13)) in
      u16 (bit_or nan (if bit_and mantissa 0x1fff == 0 then 0 else 1))

-- The branch for results below the normal range, `shift` being `1 - half_exponent`.
subnormal_to_half : ℕ → ℕ → ℕ → ℕ
subnormal_to_half sign mantissa shift =
    let full = bit_or mantissa 0x00800000 in
    let mant = full / 2 ^ shift in
    let remainder = bit_and full (2 ^ shift - 1) in
    let halfway = 2 ^ (shift - 1) in
    let rounds_up = ltb halfway remainder || (remainder == halfway && (bit_and mant 1 == 1)) in
    u16 (bit_or sign (if rounds_up then mant + 1 else mant))

-- The branch for the normal range.
normal_to_half : ℕ → ℕ → ℕ → ℕ
normal_to_half sign mantissa half_exponent =
    let rounded = mantissa + 0x00001000 in
    let carries = bit_and rounded 0x00800000 in
    if carries == 0
    then u16 (bit_or (bit_or sign (half_exponent * 2 ^ 10)) (rounded / 2 ^ 13))
    else if leb 31 (half_exponent + 1)
    then u16 (bit_or sign 0x7c00)
    else u16 (bit_or (bit_or sign ((half_exponent + 1) * 2 ^ 10)) (0 / 2 ^ 13))

pub float32_to_half_bits : ℕ → ℕ
float32_to_half_bits bits =
    let sign = bit_and (bits / 2 ^ 16) 0x8000 in
    let mantissa = bit_and bits 0x007fffff in
    let exponent = bit_and (bits / 2 ^ 23) 0xff in
    if exponent == 255
    then special_to_half sign mantissa
    else if leb exponent 112
    then if ltb exponent 102 then u16 sign else subnormal_to_half sign mantissa (113 - exponent)
    else if leb 143 exponent
    then u16 (bit_or sign 0x7c00)
    else normal_to_half sign mantissa (exponent - 112)

-- `while ((mantissa & 0x0400u) == 0u) { mantissa <<= 1; --e; }`, with `e + 127` for `e`. `none` means
-- that the fuel ran out.
normalise : ℕ → ℕ → ℕ → Option (ℕ × ℕ)
normalise zero mantissa e = none
normalise (suc fuel) mantissa e =
    let rest = normalise fuel (shl32 mantissa 1) (e - 1) in
    if bit_and mantissa 0x0400 == 0 then rest else some (mantissa, e)

-- Ten shifts bring any set bit of a ten-bit mantissa to bit 10.
pub half_bits_to_float32 : ℕ → Option ℕ
half_bits_to_float32 bits =
    let sign = shl32 (bit_and bits 0x8000) 16 in
    let exponent = bit_and (bits / 2 ^ 10) 0x1f in
    let mantissa = bit_and bits 0x03ff in
    if exponent == 0
    then if mantissa == 0
      then some sign
      else Option.map
          (λ (r : ℕ × ℕ). bit_or (bit_or sign (shl32 r.1 23)) (shl32 (bit_and r.0 0x03ff) 13))
          (normalise 11 mantissa 113)
    else if exponent == 0x1f
    then (let result = bit_or (bit_or sign 0x7f800000) (shl32 mantissa 13) in
        some (if mantissa == 0 then result else bit_or result 1))
    else some (bit_or (bit_or sign (shl32 (exponent + 112) 23)) (shl32 mantissa 13))
