-- ===== src/Float16/Subnormal.antt =====
-- Conversion of the subnormal values of binary16: the shift of `float32ToHalfBits` is
-- `1 - half_exponent`, which keeps thirteen bits too many.
use Prim.Native.Nat.{bit_or}
use orteaf.Prelude.{
  ℕ, zero, suc, ◌+◌, ◌-◌, ◌*◌, ◌%◌, ◌^◌, ◌≤◌, ◌<◌, ◌≡◌, ◌≢◌, refl, arith, Option, some, none, Bool,
  true, false, not, leb, ◌==◌, ◌&&◌,
}
use orteaf.Float16.{
  normalise, float32_to_half_bits, half_bits_to_float32, special_to_half, subnormal_to_half,
  normal_to_half,
}
use orteaf.Float16.Normal.{sign32, exponent32, mantissa32}

-- The bits that a subnormal binary16 comes back with: the low three bits of its mantissa, at bit 13.
unfoldable pub lossy_half : ℕ → ℕ → ℕ
lossy_half s m = bit_or (s * 2 ^ 15) (m % 8 * 2 ^ 13)

-- The facts about one subnormal and its binary32, as tests: the value is kept, the exponent is in
-- range, and the way back gives other bits.
facts : ℕ → ℕ → ℕ → Bool
unfolding lossy_half
facts s m b =
    (2 ^ 23 + mantissa32 b) * 2 ^ (exponent32 b - 103) == m * 2 ^ 23
    && leb 103 (exponent32 b)
    && (sign32 b == s)
    && (float32_to_half_bits b == lossy_half s m)
    && not (lossy_half s m == s * 2 ^ 15 + m)

checked : ℕ → ℕ → Option ℕ → Bool
checked s m none = false
checked s m (some b) = facts s m b

comes_back_lossy : ℕ → ℕ → Bool
comes_back_lossy s m = checked s m (half_bits_to_float32 (s * 2 ^ 15 + m))

all_below : ℕ → (ℕ → Bool) → Bool
all_below zero p = true
all_below (suc n) p = p n && all_below n p

all_below-at : (n : ℕ) (p : ℕ → Bool) (i : ℕ) → all_below n p ≡ true → i < n → p i ≡ true
unfolding all_below
all_below-at zero p i e h = absurd (omega arith)
all_below-at (suc n) p i e h = ground (arith, all_below-at n p i)

every_subnormal :
    all_below 1023 (λ m. comes_back_lossy 0 (suc m) && comes_back_lossy 1 (suc m)) ≡ true
unfolding all_below comes_back_lossy checked facts lossy_half half_bits_to_float32
    float32_to_half_bits normalise special_to_half subnormal_to_half normal_to_half
every_subnormal = refl

subnormal_lem : (s m : ℕ) → s < 2 → 1 ≤ m → m < 1024 → comes_back_lossy s m ≡ true
subnormal_lem s zero hs lo hi = absurd (omega arith)
subnormal_lem zero (suc m) hs lo hi =
    ground (arith, all_below-at 1023 _ m every_subnormal (omega arith))
subnormal_lem (suc zero) (suc m) hs lo hi =
    ground (arith, all_below-at 1023 _ m every_subnormal (omega arith))
subnormal_lem (suc (suc s)) (suc m) hs lo hi = absurd (omega arith)

-- What the tests say of a binary32.
abbrev pub KeepsValue : ℕ → ℕ → ℕ → Type 0
KeepsValue s m b =
    (sign32 b ≡ s)
    × (103 ≤ exponent32 b)
    × ((2 ^ 23 + mantissa32 b) * 2 ^ (exponent32 b - 103) ≡ m * 2 ^ 23)

abbrev pub ComesBackLossy : ℕ → ℕ → ℕ → Type 0
ComesBackLossy s m b = (float32_to_half_bits b ≡ lossy_half s m) × (lossy_half s m ≢ s * 2 ^ 15 + m)

split_facts :
    (s m : ℕ) (r : Option ℕ)
    → half_bits_to_float32 (s * 2 ^ 15 + m) ≡ r
    → checked s m r ≡ true
    → (b : ℕ) × (half_bits_to_float32 (s * 2 ^ 15 + m) ≡ some b)
      × KeepsValue s m b
      × ComesBackLossy s m b
unfolding checked facts
split_facts s m none q e = absurd (ground arith)
split_facts s m (some b) q e = (b, q, ground arith, ground arith)

-- A subnormal binary16, with sign s and mantissa m, converts to the binary32 of the same value. That
-- binary32 does not convert back: it gives the sign with the low three bits of m at bit 13, which
-- are never the bits that came in.
pub half_bits_to_float32-subnormal :
    (s m : ℕ)
    → s < 2
    → 1 ≤ m
    → m < 2 ^ 10
    → (b : ℕ) × (half_bits_to_float32 (s * 2 ^ 15 + m) ≡ some b)
      × KeepsValue s m b
      × ComesBackLossy s m b
unfolding comes_back_lossy
half_bits_to_float32-subnormal s m hs lo hi =
    split_facts s m (half_bits_to_float32 (s * 2 ^ 15 + m)) refl (subnormal_lem s m hs lo hi)
