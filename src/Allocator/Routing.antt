-- ===== src/Allocator/Routing.antt =====
-- Requests and size classes: the block size of a request, and the stack that it comes from and goes to.
use Prim.Native.Nat.{max}
use orteaf.Prelude.{
  ℕ, zero, suc, ◌+◌, ◌-◌, ◌*◌, ◌/◌, ◌%◌, ◌^◌, ◌≤◌, ◌<◌, ◌≡◌, ◌≢◌, refl, ap, subst, arith, inl, inr,
  false, leb, leb→le, Bool-cases, ltb-false, ==_false,
}
use native.Mathlib.Nat.{pow-suc, pow-le-pow_right}
use native.Mathlib.Decide.{dec_lt}
use orteaf.Allocator.SizeClass.{
  ceil_log_from, ceil_log, bit_ceil, countr_zero_from, countr_zero, size_class_index,
  size_class_count, size_class_to_block_size, get_block_size, block_size_for,
}

pow_add : (a b : ℕ) → 2 ^ a * 2 ^ b ≡ 2 ^ (a + b)
pow_add zero b = omega (arith, ap (λ (t : ℕ). 2 ^ t) zero_b)
  where
    zero_b : 0 + b ≡ b
    zero_b = omega arith
pow_add (suc a) b = omega (
  arith,
  ap (λ (t : ℕ). t * 2 ^ b) (pow-suc 2 a),
  pow_add a b,
  pow-suc 2 (a + b),
  ap (λ (t : ℕ). 2 ^ t) suc_b,
)
  where
    suc_b : suc a + b ≡ suc (a + b)
    suc_b = omega arith

-- `ceil_log_from` gives the least exponent, where one is in reach.
ceil_log_from-reaches : (fuel k n : ℕ) → n ≤ 2 ^ (k + fuel) → n ≤ 2 ^ ceil_log_from fuel k n
unfolding ceil_log_from
ceil_log_from-reaches zero k n h = subst (λ t. n ≤ 2 ^ t) same h
  where
    same : k + 0 ≡ k
    same = omega arith
ceil_log_from-reaches (suc fuel) k n h = elim (Bool-cases (leb n (2 ^ k))) [
  | inl b ↦ rw b (leb→le n (2 ^ k) b)
  | inr b ↦ rw b (ceil_log_from-reaches fuel (k + 1) n (subst (λ t. n ≤ 2 ^ t) next h))
]
  where
    next : k + suc fuel ≡ k + 1 + fuel
    next = omega arith

ceil_log_from-least : (fuel k n j : ℕ) → k ≤ j → n ≤ 2 ^ j → ceil_log_from fuel k n ≤ j
unfolding ceil_log_from
ceil_log_from-least zero k n j lo h = omega arith
ceil_log_from-least (suc fuel) k n j lo h = elim (Bool-cases (leb n (2 ^ k))) [
  | inl b ↦ rw b (omega arith)
  | inr b ↦ rw b (ceil_log_from-least fuel (k + 1) n j (above b) h)
]
  where
    above : leb n (2 ^ k) ≡ false → k + 1 ≤ j
    above b = elim (dec_lt k j) [
      | yes p ↦ omega arith
      | no p ↦ absurd (ground (arith, b, h, same_power p))
    ]
      where
        same_power : ¬ (k < j) → 2 ^ k ≡ 2 ^ j
        same_power p = ap (λ (t : ℕ). 2 ^ t) (omega arith)

countr_zero_from-pow : (fuel k : ℕ) → k < fuel → countr_zero_from fuel (2 ^ k) ≡ k
unfolding countr_zero_from
countr_zero_from-pow zero k h = absurd (omega arith)
countr_zero_from-pow (suc fuel) zero h = refl
countr_zero_from-pow (suc fuel) (suc k) h =
    rw (==_false (2 ^ suc k % 2) 1 even, halves)
      (omega (arith, countr_zero_from-pow fuel k (omega arith)))
  where
    even : 2 ^ suc k % 2 ≢ 1
    even = omega (arith, pow-suc 2 k)

    halves : 2 ^ suc k / 2 ≡ 2 ^ k
    halves = omega (arith, pow-suc 2 k)

-- The sizes up to the largest size class.
reaches : (n : ℕ) → n ≤ 2 ^ 63 → n ≤ 2 ^ ceil_log n
unfolding ceil_log
reaches n h = ceil_log_from-reaches 64 0 n (omega arith)

least : (n j : ℕ) → n ≤ 2 ^ j → ceil_log n ≤ j
unfolding ceil_log
least n j h = omega (arith, ceil_log_from-least 64 0 n j (omega arith) h)

countr_zero-bit_ceil : (n : ℕ) → n ≤ 2 ^ 63 → countr_zero (bit_ceil n) ≡ ceil_log n
unfolding countr_zero bit_ceil
countr_zero-bit_ceil n h = countr_zero_from-pow 64 (ceil_log n) (omega (arith, least n 63 h))

ceil_log_mono : (a b : ℕ) → a ≤ b → b ≤ 2 ^ 63 → ceil_log a ≤ ceil_log b
ceil_log_mono a b h k = least a (ceil_log b) (omega (arith, reaches b k))

size_class_index_lem :
    (v m : ℕ) → m ≤ v → v ≤ 2 ^ 63 → size_class_index v m ≡ ceil_log v - ceil_log m
unfolding size_class_index
size_class_index_lem v m h k = elim (Bool-cases (leb v m)) [
  | inl b ↦ rw b (omega (arith, ceil_log_mono v m (leb→le v m b) (omega arith)))
  | inr b ↦ rw (b, countr_zero-bit_ceil v k, countr_zero-bit_ceil m (omega arith)) refl
]

block_size_for-get_block_size :
    (m s : ℕ) → max m s ≤ 2 ^ 63 → block_size_for m s ≡ get_block_size m s
unfolding block_size_for size_class_to_block_size get_block_size bit_ceil
block_size_for-get_block_size m s h =
    rw
      (
        size_class_index_lem (max m s) m (omega arith) h,
        pow_add (ceil_log m) (ceil_log (max m s) - ceil_log m),
        exponent,
      )
      (fits (ceil_log (max m s)) (least (max m s) 63 h))
  where
    exponent : ceil_log m + (ceil_log (max m s) - ceil_log m) ≡ ceil_log (max m s)
    exponent = omega (arith, ceil_log_mono m (max m s) (omega arith) h)

    fits : (e : ℕ) → e ≤ 63 → 2 ^ e % 2 ^ 64 ≡ 2 ^ e
    fits e k = omega (arith, pow-le-pow_right {n = 2} (omega arith) k)

get_block_size-reaches : (m s : ℕ) → max m s ≤ 2 ^ 63 → max m s ≤ get_block_size m s
unfolding get_block_size bit_ceil
get_block_size-reaches m s h = reaches (max m s) h

get_block_size-bound : (m s : ℕ) → max m s ≤ 2 ^ 63 → get_block_size m s ≤ 2 ^ 63
unfolding get_block_size bit_ceil
get_block_size-bound m s h = pow-le-pow_right {n = 2} (omega arith) (least (max m s) 63 h)

block_power : (m s : ℕ) → get_block_size m s ≤ 2 ^ ceil_log (max m s)
unfolding get_block_size bit_ceil
block_power m s = omega arith

class_bound :
    (m s b : ℕ)
    → max m s ≤ b
    → b ≤ 2 ^ 63
    → size_class_index (get_block_size m s) m ≤ ceil_log b - ceil_log m
class_bound m s b h k = omega (
  arith,
  size_class_index_lem (get_block_size m s) m
      (omega (arith, get_block_size-reaches m s (omega arith)))
      (get_block_size-bound m s (omega arith)),
  block_log,
  ceil_log_mono (max m s) b h k,
)
  where
    block_log : ceil_log (get_block_size m s) ≤ ceil_log (max m s)
    block_log = least (get_block_size m s) (ceil_log (max m s)) (block_power m s)

size_class_count_lem :
    (m b : ℕ) → 0 < m → m ≤ b → b ≤ 2 ^ 63 → size_class_count m b ≡ ceil_log b - ceil_log m + 1
unfolding size_class_count
size_class_count_lem m b h k l =
    rw
      (
        ltb-false b m k,
        ==_false m 0 (omega arith),
        countr_zero-bit_ceil b l,
        countr_zero-bit_ceil m (omega arith),
      )
      refl

-- For a request up to the largest block size, where the least one is not 0 nor above the largest
-- and that is at most 2^63, the block that `allocate` takes is at least as large as the request
-- and has the size that `deallocate` computes for the same request, so that it comes from and
-- goes to one stack, and that stack is among those of the size classes.
pub block_size_for_lem :
    (min_size max_size size : ℕ)
    → 0 < min_size
    → min_size ≤ max_size
    → size ≤ max_size
    → max_size ≤ 2 ^ 63
    → (size ≤ block_size_for min_size size)
      × (block_size_for min_size size ≡ get_block_size min_size size)
      × (size_class_index (block_size_for min_size size) min_size
          < size_class_count min_size max_size)
block_size_for_lem lo hi size p q r s =
    let same = block_size_for-get_block_size lo size (omega arith) in
    (
      omega (arith, same, get_block_size-reaches lo size (omega arith)),
      same,
      rw same
          (omega (arith, class_bound lo size hi (omega arith) s, size_class_count_lem lo hi p q s)),
    )
