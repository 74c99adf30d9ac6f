-- ===== src/Prelude/Maps.antt =====
-- Maps from numbers, such as the program's `std::unordered_map`s, as association lists: the order of
-- the entries is of no account.
use orteaf.Prelude.{
  ℕ, ◌≤◌, ◌≡◌, refl, Bool, true, false, ◌==◌, if◌then◌else◌, Option, none, some, List, [], ◌∷◌,
  length, arith, Option-cases, inl, inr,
}

abbrev pub Map : Type 0 → Type 0
Map V = List (ℕ × V)

module _ {V : Type 0} where
  abbrev pub keys : Map V → List ℕ
  keys [] = []
  keys ((j, w) ∷ m) = j ∷ keys m

  unfoldable pub find : Map V → ℕ → Option V
  find [] k = none
  find ((j, w) ∷ m) k = if k == j then some w else find m k

  -- `erase`.
  unfoldable pub remove : Map V → ℕ → Map V
  remove [] k = []
  remove ((j, w) ∷ m) k = if k == j then m else (j, w) ∷ remove m k

  -- `m[k] = v`.
  unfoldable pub assign : Map V → ℕ → V → Map V
  unfolding remove
  assign m k v = (k, v) ∷ remove m k

  unfoldable pub has : Map V → ℕ → Bool
  has [] k = false
  has ((j, w) ∷ m) k = if k == j then true else has m k

  pub length-keys : (m : Map V) → length (keys m) ≡ length m
  length-keys [] = refl
  length-keys ((j, w) ∷ m) = omega (arith, length-keys m)

  pub find-has : (m : Map V) (k : ℕ) (v : V) → find m k ≡ some v → has m k ≡ true
  unfolding find has
  find-has [] k v e = ground arith
  find-has ((j, w) ∷ m) k v e = ground (arith, find-has m k v)

  pub has-find-none : (m : Map V) (k : ℕ) → find m k ≡ none → has m k ≡ false
  unfolding find has
  has-find-none [] k e = refl
  has-find-none ((j, w) ∷ m) k e = ground (arith, has-find-none m k)

  pub find-remove_ne : (m : Map V) (j k : ℕ) → (j == k) ≡ false → find (remove m k) j ≡ find m j
  unfolding find remove
  find-remove_ne [] j k n = refl
  find-remove_ne ((i, w) ∷ m) j k n = ground (arith, find-remove_ne m j k n)

  pub find-assign :
      (m : Map V) (k : ℕ) (v : V) (j : ℕ)
      → find (assign m k v) j ≡ (if j == k then some v else find m j)
  unfolding find assign
  find-assign m k v j = ground (arith, find-remove_ne m j k)

  pub has-find : (m : Map V) (k : ℕ) → has m k ≡ true → (v : V) × (find m k ≡ some v)
  has-find m k h = elim (Option-cases (find m k)) [
    | inl e ↦ absurd (ground (arith, has-find-none m k e))
    | inr (v, e) ↦ (v, e)
  ]

  pub length-remove_le : (m : Map V) (k : ℕ) → length (remove m k) ≤ length m
  unfolding remove
  length-remove_le [] k = omega arith
  length-remove_le ((j, w) ∷ m) k = ground (arith, length-remove_le m k)
