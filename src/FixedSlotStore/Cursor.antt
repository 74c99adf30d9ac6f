-- ===== src/FixedSlotStore/Cursor.antt =====
-- The loop of `emplace` that moves the cursor of `FixedSlotStore`, and flags.
use orteaf.Prelude.{
  ℕ, zero, suc, ◌+◌, ◌≤◌, ◌<◌, ◌≡◌, refl, inl, inr, Bool, true, false, List, [], ◌∷◌, ltb, ◌==◌,
  ◌&&◌, length, get_or, set, arith, Bool-cases, ==_iff,
}
use orteaf.FixedSlotStore.{advance}

pub get_or-beyond {ℓ} :
    {A : Type ℓ} (xs : List A) (i : ℕ) (d : A) → length xs ≤ i → get_or xs i d ≡ d
get_or-beyond [] i d h = refl
get_or-beyond (x ∷ xs) zero d h = absurd (omega arith)
get_or-beyond (x ∷ xs) (suc i) d h = get_or-beyond xs i d (omega arith)

-- The loop ends, within its rounds, at the first slot from `next` on that is not created, or at the
-- end of the store.
pub advance_lem :
    (rounds slots : ℕ) (created : List Bool) (next : ℕ)
    → length created ≡ slots
    → next ≤ slots
    → slots ≤ next + rounds
    → let r = advance rounds slots created next in
      (next ≤ r)
      × (r ≤ slots)
      × (get_or created r false ≡ false)
      × ((i : ℕ) → next ≤ i → i < r → get_or created i false ≡ true)
unfolding advance
advance_lem zero slots created next l lo hi =
    (omega arith, lo, get_or-beyond created next false (omega arith), λ i a b. absurd (omega arith))
advance_lem (suc rounds) slots created next l lo hi =
    elim (Bool-cases (ltb next slots && get_or created next false)) [
      | inr stop ↦ rw stop (
        omega arith,
        lo,
        elim (Bool-cases (ltb next slots)) [
          | inl inside ↦ ground (arith, stop, inside)
          | inr out ↦ get_or-beyond created next false (ground (arith, out, l))
        ],
        λ i a b. absurd (omega arith),
      )
      | inl go ↦
          let rest = advance_lem rounds slots created (next + 1) l (ground arith) (omega arith) in
          rw go (
            omega (arith, rest.0),
            rest.1,
            rest.2,
            λ i a b. elim (Bool-cases (i == next)) [
              | inl same ↦ rw ((==_iff i next).0 same) (ground (arith, go))
              | inr other ↦ rest.3 i (ground (arith, a, other)) b
            ],
          )
    ]

-- Clearing a flag sets no other.
pub get_or-set-false :
    (flags : List Bool) (i j : ℕ)
    → get_or flags j false ≡ false
    → get_or (set flags i false) j false ≡ false
get_or-set-false [] i j h = h
get_or-set-false (x ∷ xs) zero zero h = refl
get_or-set-false (x ∷ xs) zero (suc j) h = h
get_or-set-false (x ∷ xs) (suc i) zero h = h
get_or-set-false (x ∷ xs) (suc i) (suc j) h = get_or-set-false xs i j h
