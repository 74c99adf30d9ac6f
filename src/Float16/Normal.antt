-- ===== src/Float16/Normal.antt =====
-- Conversion in the normal range of binary16.
use Prim.Native.Nat.{bit_and, bit_or}
use orteaf.Prelude.{
  ℕ, ◌+◌, ◌-◌, ◌*◌, ◌/◌, ◌%◌, ◌^◌, ◌≤◌, ◌<◌, ◌≡◌, ap, ◌∙◌, arith, leb, ◌==◌, ==_false, Bool-cases,
  inl, inr, leb→le, leb-false, true, false,
}
use native.Mathlib.Decide.{dec_lt}
use orteaf.Prelude.Bits.{bit_or-add, bit_and-mask, bit_and-bit}
use orteaf.Float16.{u16, float32_to_half_bits, normal_to_half}

-- The fields of a binary32.
abbrev pub sign32 : ℕ → ℕ
sign32 bits = bits / 2 ^ 31 % 2

abbrev pub exponent32 : ℕ → ℕ
exponent32 bits = bits / 2 ^ 23 % 2 ^ 8

abbrev pub mantissa32 : ℕ → ℕ
mantissa32 bits = bits % 2 ^ 23

pub sign_field : (bits : ℕ) → bit_and (bits / 2 ^ 16) 0x8000 ≡ sign32 bits * 2 ^ 15
sign_field bits = bit_and-bit 15 (bits / 2 ^ 16) ∙ omega arith

-- The three fields of a binary16.
pub pack_half :
    (s e m : ℕ)
    → e < 32
    → m < 2 ^ 10
    → bit_or (bit_or (s * 2 ^ 15) (e * 2 ^ 10)) m ≡ s * 2 ^ 15 + e * 2 ^ 10 + m
pack_half s e m he hm =
    ap (λ t. bit_or t m) (bit_or-add 15 s (e * 2 ^ 10) (omega arith) ∙ regroup)
    ∙ bit_or-add 10 (s * 32 + e) m hm
    ∙ omega arith
  where
    regroup : s * 2 ^ 15 + e * 2 ^ 10 ≡ (s * 32 + e) * 2 ^ 10
    regroup = omega arith

u16-small : (x y : ℕ) → x ≡ y → y < 2 ^ 16 → u16 x ≡ y
u16-small x y e h = omega (arith, e)

-- The test of the carry out of the mantissa.
carry_test : (r : ℕ) → r < 2 ^ 23 → (bit_and r 0x00800000 == 0) ≡ true
carry_test r h = ap (λ t. t == 0) (bit_and-bit 23 r ∙ zero_bit)
  where
    zero_bit : r / 2 ^ 23 % 2 * 2 ^ 23 ≡ 0
    zero_bit = omega arith

carry_test-carries : (r : ℕ) → 2 ^ 23 ≤ r → r < 2 ^ 24 → (bit_and r 0x00800000 == 0) ≡ false
carry_test-carries r lo hi = ap (λ t. t == 0) (bit_and-bit 23 r ∙ one_bit)
  where
    one_bit : r / 2 ^ 23 % 2 * 2 ^ 23 ≡ 2 ^ 23
    one_bit = omega arith

no_carry :
    (s m e : ℕ)
    → s < 2
    → m + 2 ^ 12 < 2 ^ 23
    → e ≤ 30
    → normal_to_half (s * 2 ^ 15) m e ≡ s * 2 ^ 15 + e * 2 ^ 10 + (m + 2 ^ 12) / 2 ^ 13
unfolding normal_to_half
no_carry s m e hs hm hi = rw (carry_test (m + 2 ^ 12) hm) (
    u16-small _ _ (pack_half s e ((m + 2 ^ 12) / 2 ^ 13) (omega arith) (omega arith)) (omega arith))

carry :
    (s m e : ℕ)
    → s < 2
    → m < 2 ^ 23
    → 2 ^ 23 ≤ m + 2 ^ 12
    → e ≤ 30
    → normal_to_half (s * 2 ^ 15) m e ≡ s * 2 ^ 15 + e * 2 ^ 10 + (m + 2 ^ 12) / 2 ^ 13
unfolding normal_to_half
carry s m e hs hm lo hi =
    rw (carry_test-carries (m + 2 ^ 12) lo (omega arith)) (elim (Bool-cases (leb 31 (e + 1))) [
      | inl b ↦ rw b (
          u16-small _ _ (bit_or-add 15 s 0x7c00 (omega arith)) (omega arith)
          ∙ omega (arith, leb→le 31 (e + 1) b))
      | inr b ↦ rw b (
          u16-small _ _ (pack_half s (e + 1) 0 (ground (arith, b)) (omega arith))
            (ground (arith, b))
          ∙ omega arith)
    ])

-- Rounding adds half a unit of the last place and cuts off; a carry moves to the next exponent.
normal_to_half_lem :
    (s m e : ℕ)
    → s < 2
    → m < 2 ^ 23
    → e ≤ 30
    → normal_to_half (s * 2 ^ 15) m e ≡ s * 2 ^ 15 + e * 2 ^ 10 + (m + 2 ^ 12) / 2 ^ 13
normal_to_half_lem s m e hs hm hi = elim (dec_lt (m + 2 ^ 12) (2 ^ 23)) [
  | yes p ↦ no_carry s m e hs p hi
  | no p ↦ carry s m e hs hm (omega arith) hi
]

-- A binary32 whose exponent lies in the normal range of binary16 keeps its sign, and its magnitude
-- is rounded to the nearest binary16 with ties away from zero, up to infinity: with the exponent
-- rebased and the low 13 bits of the mantissa rounded half up, a carry out of the mantissa counted
-- into the exponent.
pub float32_to_half_bits-normal :
    (bits : ℕ)
    → 113 ≤ exponent32 bits
    → exponent32 bits ≤ 142
    → float32_to_half_bits bits
      ≡ sign32 bits * 2 ^ 15
        + (exponent32 bits - 112) * 2 ^ 10
        + (mantissa32 bits + 2 ^ 12) / 2 ^ 13
unfolding float32_to_half_bits
float32_to_half_bits-normal bits lo hi =
    rw
      (
        sign_field bits,
        bit_and-mask 23 bits,
        bit_and-mask 8 (bits / 2 ^ 23),
        ==_false (exponent32 bits) 255 (omega arith),
        leb-false (exponent32 bits) 112 (omega arith),
        leb-false 143 (exponent32 bits) (omega arith),
      )
      (normal_to_half_lem (sign32 bits) (mantissa32 bits) (exponent32 bits - 112) (omega arith)
        (omega arith) (omega arith))
