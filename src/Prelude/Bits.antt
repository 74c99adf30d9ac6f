-- ===== src/Prelude/Bits.antt =====
-- Bit operations on native numbers as arithmetic: a mask of low bits is a remainder, and `|` of
-- fields that do not overlap is a sum.
use Prim.Native.Nat.{
  ℕ, zero, suc, ◌+◌, ◌-◌, ◌*◌, ◌/◌, ◌%◌, ◌^◌, ◌≤◌, ◌<◌, min, max, digits, bit_and, bit_or,
  bit_and-bitwise, bit_or-bitwise,
}
use mathlib.Core.Path.{◌≡◌, refl, ap, sym, ◌∙◌}
use native.Mathlib.Nat.{
  pow-suc, one-le-pow, div-add-mod, mul-add-mod_self_left, mod-eq_of_lt, mod-lt, mul_assoc,
  div-div-eq-div-mul,
}
use native.Mathlib.Omega.{arith}

-- The digit recursion does not depend on spare fuel.
spare_fuel :
    (z : ℕ → ℕ) (f : ℕ → ℕ → ℕ) (n m a b : ℕ) → a ≤ m → m ≤ n → digits z f n a b ≡ digits z f m a b
spare_fuel z f zero zero a b p q = refl
spare_fuel z f zero (suc m) a b p q = absurd (omega arith)
spare_fuel z f (suc n) zero zero b p q = refl
spare_fuel z f (suc n) zero (suc a) b p q = absurd (omega arith)
spare_fuel z f (suc n) (suc m) zero b p q = refl
spare_fuel z f (suc n) (suc m) (suc a) b p q =
    rw (spare_fuel z f n m (suc a / 2) (b / 2) (omega arith) (omega arith))

or_lowest : (a b : ℕ) → bit_or a b ≡ 2 * bit_or (a / 2) (b / 2) + max (a % 2) (b % 2)
or_lowest zero b = omega (arith, bit_or-bitwise 0 b, bit_or-bitwise 0 (b / 2))
or_lowest (suc a) b = omega (
  arith,
  bit_or-bitwise (suc a) b,
  bit_or-bitwise (suc a / 2) (b / 2),
  spare_fuel (λ y. y) max a (suc a / 2) (suc a / 2) (b / 2) (omega arith) (omega arith),
)

and_lowest : (a b : ℕ) → bit_and a b ≡ 2 * bit_and (a / 2) (b / 2) + min (a % 2) (b % 2)
and_lowest zero b = omega (arith, bit_and-bitwise 0 b, bit_and-bitwise 0 (b / 2))
and_lowest (suc a) b = omega (
  arith,
  bit_and-bitwise (suc a) b,
  bit_and-bitwise (suc a / 2) (b / 2),
  spare_fuel (λ y. 0) min a (suc a / 2) (suc a / 2) (b / 2) (omega arith) (omega arith),
)

-- Laws at 0, with a bound on the other operand as the measure.
or-zero_below : (n a : ℕ) → a ≤ n → bit_or a 0 ≡ a
or-zero_below zero a h =
    omega (arith, or_lowest a 0, bit_or-bitwise a 0, ap (λ k. bit_or k 0) zero_a)
  where
    zero_a : a ≡ 0
    zero_a = omega arith
or-zero_below (suc n) zero h = refl
or-zero_below (suc n) (suc a) h =
    omega (arith, or_lowest (suc a) 0, or-zero_below n (suc a / 2) (omega arith))

and-zero_below : (n a : ℕ) → a ≤ n → bit_and a 0 ≡ 0
and-zero_below n zero h = refl
and-zero_below zero (suc a) h = absurd (omega arith)
and-zero_below (suc n) (suc a) h =
    omega (arith, and_lowest (suc a) 0, and-zero_below n (suc a / 2) (omega arith))

double_pow : (q k : ℕ) → q * 2 ^ suc k ≡ 2 * (q * 2 ^ k)
double_pow q k = omega (arith, ap (λ (t : ℕ). q * t) (pow-suc 2 k))

-- A high field and a low field that does not reach it.
pub bit_or-add : (k hi lo : ℕ) → lo < 2 ^ k → bit_or (hi * 2 ^ k) lo ≡ hi * 2 ^ k + lo
bit_or-add zero hi lo h = ground (arith, or-zero_below hi hi)
bit_or-add (suc k) hi lo h =
    ground (arith, double_pow hi k, or_lowest (hi * 2 ^ suc k) lo, bit_or-add k hi (lo / 2))

mod_double : (m a : ℕ) → 0 < m → a % (2 * m) ≡ 2 * (a / 2 % m) + a % 2
mod_double m a h =
    let q : ℕ = a / 2 / m in
    let r : ℕ = a / 2 % m in
    let parts : a ≡ 2 * m * q + (2 * r + a % 2) =
      omega (arith, div-add-mod (a / 2) m, mul_assoc 2 m q) in
    ap (λ t. t % (2 * m)) parts
    ∙ mul-add-mod_self_left (2 * m) q (2 * r + a % 2)
    ∙ mod-eq_of_lt (omega (arith, mod-lt (a / 2) h))

half : (k : ℕ) → 2 ^ suc k ≡ 2 * 2 ^ k → 1 ≤ 2 ^ k → (2 ^ suc k - 1) / 2 ≡ 2 ^ k - 1
half k e pos = omega arith

odd : (k : ℕ) → 2 ^ suc k ≡ 2 * 2 ^ k → 1 ≤ 2 ^ k → (2 ^ suc k - 1) % 2 ≡ 1
odd k e pos = omega arith

mask_step : (k a : ℕ) → bit_and a (2 ^ k - 1) ≡ a % 2 ^ k
mask_step zero a = omega (arith, and-zero_below a a (omega arith))
mask_step (suc k) a =
    let e : 2 ^ suc k ≡ 2 * 2 ^ k = omega (arith, pow-suc 2 k) in
    let pos = one-le-pow k 2 (omega arith) in
    and_lowest a (2 ^ suc k - 1)
    ∙ rw (half k e pos, mask_step k (a / 2), e)
        (omega (arith, mod_double (2 ^ k) a pos, odd k e pos))

-- `a & (2^k - 1)`.
pub bit_and-mask : (k a : ℕ) → bit_and a (2 ^ k - 1) ≡ a % 2 ^ k
bit_and-mask k a = mask_step k a

or_comm_below : (n a b : ℕ) → a ≤ n → b ≤ n → bit_or a b ≡ bit_or b a
or_comm_below zero a b p q =
    ap (λ k. bit_or k b) zero_a
    ∙ ap (λ k. bit_or 0 k) zero_b
    ∙ ap (λ k. bit_or k 0) (sym zero_b)
    ∙ ap (λ k. bit_or b k) (sym zero_a)
  where
    zero_a : a ≡ 0
    zero_a = omega arith

    zero_b : b ≡ 0
    zero_b = omega arith
or_comm_below (suc n) a b p q = omega (
  arith,
  or_lowest a b,
  or_lowest b a,
  or_comm_below n (a / 2) (b / 2) (omega arith) (omega arith),
)

-- A low field and a high field above it.
pub bit_or-add_low : (k lo hi : ℕ) → lo < 2 ^ k → bit_or lo (hi * 2 ^ k) ≡ hi * 2 ^ k + lo
bit_or-add_low k lo hi h =
    or_comm_below (lo + hi * 2 ^ k) lo (hi * 2 ^ k) (omega arith) (omega arith)
    ∙ bit_or-add k hi lo h

and-one : (a : ℕ) → bit_and a 1 ≡ a % 2
and-one a = bit_and-mask 1 a

double_bit : (d m : ℕ) → 2 * (d * m) ≡ d * (2 * m)
double_bit d m = omega arith

-- `a & (1 << k)`.
pub bit_and-bit : (k a : ℕ) → bit_and a (2 ^ k) ≡ a / 2 ^ k % 2 * 2 ^ k
bit_and-bit zero a = omega (arith, and-one a)
bit_and-bit (suc k) a =
    let e : 2 ^ suc k ≡ 2 * 2 ^ k = omega (arith, pow-suc 2 k) in
    let m : ℕ = 2 ^ k in
    let even : (2 * m / 2 ≡ m) × (2 * m % 2 ≡ 0) = omega arith in
    rw e (
      and_lowest a (2 * m)
      ∙ rw (even.0, even.1, bit_and-bit k (a / 2), ← div-div-eq-div-mul a 2 m)
          (omega (arith, double_bit (a / 2 / m % 2) m)))
