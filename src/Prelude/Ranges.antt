-- ===== src/Prelude/Ranges.antt =====
-- Index lists: intervals of indices, absence and distinctness.
use Prim.Native.Nat.{ℕ, zero, suc, ◌+◌, ◌<◌, ◌≤◌}
use mathlib.Core.Path.{◌≡◌, refl, ap}
use mathlib.Core.Logic.{◌≢◌}
use mathlib.Core.List.{List, [], ◌∷◌, ◌++◌}
use native.Mathlib.Omega.{arith}
use orteaf.Prelude.Lists.{length}

-- `n` indices from `start` on, in increasing order.
abbrev pub range_from : ℕ → ℕ → List ℕ
range_from start zero = []
range_from start (suc n) = start ∷ range_from (suc start) n

-- `i` does not stand in the list.
abbrev pub Absent : ℕ → List ℕ → Type 0
Absent i [] = Unit
Absent i (x ∷ xs) = (i ≢ x) × Absent i xs

-- No index stands twice.
abbrev pub IsDistinct : List ℕ → Type 0
IsDistinct [] = Unit
IsDistinct (x ∷ xs) = Absent x xs × IsDistinct xs

-- Every index is below the bound.
abbrev pub Below : ℕ → List ℕ → Type 0
Below n [] = Unit
Below n (x ∷ xs) = (x < n) × Below n xs

pub Below-mono : (m n : ℕ) (xs : List ℕ) → m ≤ n → Below m xs → Below n xs
Below-mono m n [] h b = tt
Below-mono m n (x ∷ xs) h b = (omega arith, Below-mono m n xs h b.1)

pub Absent-of_Below : (n i : ℕ) (xs : List ℕ) → Below n xs → n ≤ i → Absent i xs
Absent-of_Below n i [] b h = tt
Absent-of_Below n i (x ∷ xs) b h = (omega arith, Absent-of_Below n i xs b.1 h)

pub Absent-append : (i : ℕ) (xs ys : List ℕ) → Absent i xs → Absent i ys → Absent i (xs ++ ys)
Absent-append i [] ys a b = b
Absent-append i (x ∷ xs) ys a b = (a.0, Absent-append i xs ys a.1 b)

pub Absent-range_from : (i s n : ℕ) → i < s → Absent i (range_from s n)
Absent-range_from i s zero h = tt
Absent-range_from i s (suc n) h = (omega arith, Absent-range_from i (suc s) n (omega arith))

pub Below-range_from : (m s n : ℕ) → s + n ≤ m → Below m (range_from s n)
Below-range_from m s zero h = tt
Below-range_from m s (suc n) h = (omega arith, Below-range_from m (suc s) n (omega arith))

pub length-range_from : (s n : ℕ) → length (range_from s n) ≡ n
length-range_from s zero = refl
length-range_from s (suc n) = ap suc (length-range_from (suc s) n)

pub Below-append : (m : ℕ) (xs ys : List ℕ) → Below m xs → Below m ys → Below m (xs ++ ys)
Below-append m [] ys a b = b
Below-append m (x ∷ xs) ys a b = (a.0, Below-append m xs ys a.1 b)

-- A fresh interval above every index of a distinct list keeps it distinct.
pub IsDistinct-range_append :
    (s n : ℕ) (xs : List ℕ) → Below s xs → IsDistinct xs → IsDistinct (range_from s n ++ xs)
IsDistinct-range_append s zero xs b d = d
IsDistinct-range_append s (suc n) xs b d = (
  Absent-append s (range_from (suc s) n) xs (Absent-range_from s (suc s) n (omega arith))
      (Absent-of_Below s s xs b (omega arith)),
  IsDistinct-range_append (suc s) n xs (Below-mono s (suc s) xs (omega arith) b) d,
)

pub range_from-snoc :
    (s n : ℕ) (k : ℕ) (ys : List ℕ)
    → k ≡ s + n
    → range_from s n ++ (k ∷ ys) ≡ range_from s (suc n) ++ ys
range_from-snoc s zero k ys e = ap (λ j. j ∷ ys) (omega arith)
range_from-snoc s (suc n) k ys e = ap (λ zs. s ∷ zs) (range_from-snoc (suc s) n k ys (omega arith))

pub Absent-append_parts : (i : ℕ) (xs ys : List ℕ) → Absent i (xs ++ ys) → Absent i xs × Absent i ys
Absent-append_parts i [] ys a = (tt, a)
Absent-append_parts i (x ∷ xs) ys a =
    let rest = Absent-append_parts i xs ys a.1 in ((a.0, rest.0), rest.1)

-- A distinct list without one of its elements.
pub IsDistinct-middle :
    (xs : List ℕ) (y : ℕ) (ys : List ℕ)
    → IsDistinct (xs ++ y ∷ ys)
    → IsDistinct (xs ++ ys) × Absent y (xs ++ ys)
IsDistinct-middle [] y ys d = (d.1, d.0)
IsDistinct-middle (x ∷ xs) y ys d =
    let (rest, gone) = IsDistinct-middle xs y ys d.1 in
    let parts = Absent-append_parts x xs (y ∷ ys) d.0 in
    ((Absent-append x xs ys parts.0 parts.1.1, rest), (λ e. parts.1.0 (omega arith), gone))
