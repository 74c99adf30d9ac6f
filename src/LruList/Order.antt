-- ===== src/LruList/Order.antt =====
-- The lists that `LruList` (orteaf/include/orteaf/internal/base/lru_list.h) stands for: nodes in order
-- of their last use, and how often each stands in a list.
use orteaf.Prelude.{ℕ, ◌+◌, ◌-◌, ◌<◌, ◌≡◌, ◌==◌, if◌then◌else◌, List, [], ◌∷◌, length, arith}
use orteaf.LruList.{null}

unfoldable pub erase : ℕ → List ℕ → List ℕ
erase n [] = []
erase n (x ∷ xs) = if n == x then xs else x ∷ erase n xs

-- The last node, and the list without it.
unfoldable pub split_last : List ℕ → ℕ × List ℕ
split_last [] = (null, [])
split_last (x ∷ []) = (x, [])
split_last (x ∷ y ∷ xs) = let (last, rest) = split_last (y ∷ xs) in (last, x ∷ rest)

abbrev pub count : ℕ → List ℕ → ℕ
count n [] = 0
count n (x ∷ xs) = (if n == x then 1 else 0) + count n xs

pub count-erase :
    (k n : ℕ) (xs : List ℕ) → count k (erase n xs) ≡ count k xs - (if k == n then 1 else 0)
unfolding erase
count-erase k n [] = ground arith
count-erase k n (x ∷ xs) = ground (arith, count-erase k n xs)

pub length-erase : (n : ℕ) (xs : List ℕ) → 0 < count n xs → length (erase n xs) + 1 ≡ length xs
unfolding erase
length-erase n [] h = absurd (omega arith)
length-erase n (x ∷ xs) h = ground (arith, length-erase n xs)

pub count-split_last :
    (k x : ℕ) (xs : List ℕ)
    → count k (x ∷ xs)
      ≡ count k (split_last (x ∷ xs)).1 + (if k == (split_last (x ∷ xs)).0 then 1 else 0)
unfolding split_last
count-split_last k x [] = omega arith
count-split_last k x (y ∷ xs) = omega (arith, count-split_last k y xs)
