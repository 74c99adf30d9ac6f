-- ===== src/Float16/RoundTrip.antt =====
-- The way from binary16 to binary32 and back.
use Prim.Native.Nat.{bit_and, bit_or}
use orteaf.Prelude.{
  ℕ, ◌+◌, ◌*◌, ◌/◌, ◌%◌, ◌^◌, ◌≤◌, ◌<◌, ◌≡◌, ◌⊎◌, inl, inr, refl, ap, subst, sym, ◌∙◌, arith, some,
  ==_false,
}
use orteaf.Prelude.Bits.{bit_or-add, bit_and-mask, bit_and-bit}
use orteaf.Float16.{shl32, float32_to_half_bits, half_bits_to_float32, special_to_half}
use orteaf.Float16.Normal.{float32_to_half_bits-normal}

-- The fields of a binary16.
abbrev pub sign16 : ℕ → ℕ
sign16 bits = bits / 2 ^ 15 % 2

abbrev pub exponent16 : ℕ → ℕ
exponent16 bits = bits / 2 ^ 10 % 2 ^ 5

abbrev pub mantissa16 : ℕ → ℕ
mantissa16 bits = bits % 2 ^ 10

pub sign16_field : (h : ℕ) → shl32 (bit_and h 0x8000) 16 ≡ sign16 h * 2 ^ 31
sign16_field h = omega (arith, bit_and-bit 15 h)

-- The three fields of a binary32.
pub pack_float :
    (s e m : ℕ)
    → e < 2 ^ 8
    → m < 2 ^ 10
    → bit_or (bit_or (s * 2 ^ 31) (shl32 e 23)) (shl32 m 13) ≡ s * 2 ^ 31 + e * 2 ^ 23 + m * 2 ^ 13
pack_float s e m he hm =
    ap (λ t. bit_or (bit_or (s * 2 ^ 31) t) (shl32 m 13)) shl_e
    ∙ ap (λ t. bit_or t (shl32 m 13)) (bit_or-add 31 s (e * 2 ^ 23) (omega arith) ∙ regroup)
    ∙ ap (λ t. bit_or ((s * 2 ^ 8 + e) * 2 ^ 23) t) shl_m
    ∙ bit_or-add 23 (s * 2 ^ 8 + e) (m * 2 ^ 13) (omega arith)
    ∙ omega arith
  where
    shl_e : shl32 e 23 ≡ e * 2 ^ 23
    shl_e = omega arith

    shl_m : shl32 m 13 ≡ m * 2 ^ 13
    shl_m = omega arith

    regroup : s * 2 ^ 31 + e * 2 ^ 23 ≡ (s * 2 ^ 8 + e) * 2 ^ 23
    regroup = omega arith

-- A normal binary16 becomes the binary32 with the rebased exponent and the mantissa on top.
pub half_bits_to_float32-normal :
    (h : ℕ)
    → 1 ≤ exponent16 h
    → exponent16 h ≤ 30
    → half_bits_to_float32 h
      ≡ some (sign16 h * 2 ^ 31 + (exponent16 h + 112) * 2 ^ 23 + mantissa16 h * 2 ^ 13)
unfolding half_bits_to_float32
half_bits_to_float32-normal h lo hi =
    rw
      (
        sign16_field h,
        bit_and-mask 10 h,
        bit_and-mask 5 (h / 2 ^ 10),
        ==_false (exponent16 h) 0 (omega arith),
        ==_false (exponent16 h) 31 (omega arith),
      )
      (ap some
        (pack_float (sign16 h) (exponent16 h + 112) (mantissa16 h) (omega arith) (omega arith)))

back :
    (h b : ℕ)
    → h < 2 ^ 16
    → 1 ≤ exponent16 h
    → exponent16 h ≤ 30
    → b ≡ sign16 h * 2 ^ 31 + (exponent16 h + 112) * 2 ^ 23 + mantissa16 h * 2 ^ 13
    → float32_to_half_bits b ≡ h
back h b small lo hi e =
    float32_to_half_bits-normal b (omega (arith, e)) (omega (arith, e)) ∙ omega (arith, e)

normal_half :
    (h : ℕ)
    → h < 2 ^ 16
    → 1 ≤ exponent16 h
    → exponent16 h ≤ 30
    → (b : ℕ) × (half_bits_to_float32 h ≡ some b) × (float32_to_half_bits b ≡ h)
normal_half h small lo hi = (
  sign16 h * 2 ^ 31 + (exponent16 h + 112) * 2 ^ 23 + mantissa16 h * 2 ^ 13,
  half_bits_to_float32-normal h lo hi,
  back h _ small lo hi refl,
)

abbrev IsRestored : ℕ → Type 0
IsRestored h = (b : ℕ) × (half_bits_to_float32 h ≡ some b) × (float32_to_half_bits b ≡ h)

zeros-IsRestored : IsRestored 0 × IsRestored 0x8000
unfolding half_bits_to_float32 float32_to_half_bits special_to_half
zeros-IsRestored = ((0, refl, refl), (0x80000000, refl, refl))

infinities-IsRestored : IsRestored 0x7c00 × IsRestored 0xfc00
unfolding half_bits_to_float32 float32_to_half_bits special_to_half
infinities-IsRestored = ((0x7f800000, refl, refl), (0xff800000, refl, refl))

special_half : (h : ℕ) → (h ≡ 0) ⊎ (h ≡ 0x8000) ⊎ (h ≡ 0x7c00) ⊎ (h ≡ 0xfc00) → IsRestored h
special_half h (inl e) = subst IsRestored (sym e) zeros-IsRestored.0
special_half h (inr (inl e)) = subst IsRestored (sym e) zeros-IsRestored.1
special_half h (inr (inr (inl e))) = subst IsRestored (sym e) infinities-IsRestored.0
special_half h (inr (inr (inr e))) = subst IsRestored (sym e) infinities-IsRestored.1

special_values :
    (h : ℕ)
    → h < 2 ^ 16
    → mantissa16 h ≡ 0
    → (exponent16 h ≡ 0) ⊎ (exponent16 h ≡ 31)
    → (h ≡ 0) ⊎ (h ≡ 0x8000) ⊎ (h ≡ 0x7c00) ⊎ (h ≡ 0xfc00)
special_values h small z (inl e) = omega arith
special_values h small z (inr e) = omega arith

normal_or_special :
    (h : ℕ)
    → ((1 ≤ exponent16 h) × (exponent16 h ≤ 30)) ⊎ ((exponent16 h ≡ 0) ⊎ (exponent16 h ≡ 31))
normal_or_special h = omega arith

-- A binary16 that is normal, a zero or an infinity converts to a binary32 that converts back to the
-- same bits.
pub float32_to_half_bits-half_bits_to_float32 :
    (h : ℕ)
    → h < 2 ^ 16
    → ((1 ≤ exponent16 h) × (exponent16 h ≤ 30)) ⊎ (mantissa16 h ≡ 0)
    → (b : ℕ) × (half_bits_to_float32 h ≡ some b) × (float32_to_half_bits b ≡ h)
float32_to_half_bits-half_bits_to_float32 h small (inl r) = normal_half h small r.0 r.1
float32_to_half_bits-half_bits_to_float32 h small (inr z) = elim (normal_or_special h) [
  | inl r ↦ normal_half h small r.0 r.1
  | inr n ↦ special_half h (special_values h small z n)
]
