-- ===== src/Allocator/LargeTable.antt =====
-- The table of large allocations
-- (orteaf/include/orteaf/internal/execution/allocator/policies/large_alloc/direct_resource_large_alloc.h):
-- its invariant, and what placing a region does.
use orteaf.Prelude.{
  ℕ, zero, suc, ◌+◌, ◌<◌, ◌≤◌, ◌≡◌, refl, sym, ap, ◌∙◌, subst, arith, true, false, List, [], ◌∷◌,
  ◌++◌, All, Absent, IsDistinct, length, get_or, set, get_or-set_self, get_or-set_ne, length-set,
  length-append,
}
use orteaf.Allocator.{View}
use orteaf.Allocator.LargeAlloc.{
  Entry, LargeAlloc, no_entry, entry_at, reserve_from, reserve_slot, place_entry,
}

-- The free indices are those of entries that are not in use, each once.
pub record IsValid (l : LargeAlloc) : Type 0 where
  pub unused : All (λ i. (i < length l.entries) × ((entry_at l i).in_use ≡ false)) l.free_list
  pub distinct : IsDistinct l.free_list

-- The entry at an index is in use and holds the region.
pub record Holds (l : LargeAlloc) (index : ℕ) (view : View) : Type 0 where
  pub inside : index < length l.entries
  pub held : entry_at l index ≡ record { view = view; in_use = true }

pub get_or-append_default {ℓ} :
    {A : Type ℓ} (xs : List A) (j : ℕ) (d : A) → get_or (xs ++ d ∷ []) j d ≡ get_or xs j d
get_or-append_default [] zero d = refl
get_or-append_default [] (suc j) d = refl
get_or-append_default (x ∷ xs) zero d = refl
get_or-append_default (x ∷ xs) (suc j) d = get_or-append_default xs j d

get_or-length {ℓ} : {A : Type ℓ} (xs : List A) (d : A) → get_or xs (length xs) d ≡ d
get_or-length [] d = refl
get_or-length (x ∷ xs) d = get_or-length xs d

-- An entry in use does not stand among the free ones.
pub Absent-unused :
    (l : LargeAlloc) (index : ℕ) (free : List ℕ)
    → (entry_at l index).in_use ≡ true
    → All (λ i. (i < length l.entries) × ((entry_at l i).in_use ≡ false)) free
    → Absent index free
Absent-unused l index [] used h = tt
Absent-unused l index (i ∷ free) used h = (
  λ e. absurd (ground (arith, used, h.0.1, ap (λ k. (entry_at l k).in_use) e)),
  Absent-unused l index free used h.1,
)

-- A write elsewhere leaves the free entries free.
pub unused-set :
    (l : LargeAlloc) (index : ℕ) (entry : Entry) (free : List ℕ)
    → Absent index free
    → All (λ i. (i < length l.entries) × ((entry_at l i).in_use ≡ false)) free
    → let q = record l { entries = set l.entries index entry } in
      All (λ i. (i < length q.entries) × ((entry_at q i).in_use ≡ false)) free
unused-set l index entry [] a h = tt
unused-set l index entry (i ∷ free) a h = (
  (
    omega (arith, length-set l.entries index entry, h.0.0),
    ap (λ e. e.in_use) (get_or-set_ne l.entries index i entry no_entry a.0) ∙ h.0.1,
  ),
  unused-set l index entry free a.1 h.1,
)

-- What `reserveSlot` hands out: an index of the table that was not in use and is no longer free.
record Reserved (l : LargeAlloc) (slot : ℕ) (r : LargeAlloc) : Type 0 where
  inside : slot < length r.entries
  bounded : length r.entries ≤ length l.entries + 1
  grown : length l.entries ≤ length r.entries
  entries_same : (j : ℕ) → entry_at r j ≡ entry_at l j
  was_unused : (entry_at l slot).in_use ≡ false
  absent : Absent slot r.free_list
  valid : IsValid r

reserve_from-Reserved :
    (free : List ℕ) (l : LargeAlloc)
    → free ≡ l.free_list
    → IsValid l
    → let r = reserve_from free l in Reserved l (r.0) r.1
unfolding reserve_from
reserve_from-Reserved [] l e v =
    let more = length-append l.entries (no_entry ∷ []) in
    record {
      inside = omega (arith, more);
      bounded = omega (arith, more);
      grown = omega (arith, more);
      entries_same = λ j. get_or-append_default l.entries j no_entry;
      was_unused = ap (λ x. x.in_use) (get_or-length l.entries no_entry);
      absent = subst (Absent (length l.entries)) e tt;
      valid = record {
        unused =
            subst
              (λ free.
                All
                  (λ i.
                    (i < length (l.entries ++ no_entry ∷ []))
                    × ((get_or (l.entries ++ no_entry ∷ []) i no_entry).in_use ≡ false))
                  free)
              e tt;
        distinct = v.distinct;
      };
    }
reserve_from-Reserved (index ∷ rest) l e v =
    let unused =
      subst (All (λ i. (i < length l.entries) × ((entry_at l i).in_use ≡ false))) (sym e)
        v.unused in
    let distinct = subst IsDistinct (sym e) v.distinct in
    record {
      inside = unused.0.0;
      bounded = omega arith;
      grown = omega arith;
      entries_same = λ j. refl;
      was_unused = unused.0.1;
      absent = distinct.0;
      valid = record { unused = unused.1; distinct = distinct.1 };
    }

-- What placing a region in a reserved entry does.
pub place_entry-Holds :
    (l : LargeAlloc) (view : View)
    → IsValid l
    → let (block, q) = place_entry view l in
      IsValid q
      × Holds q ((reserve_slot l).0) view
      × (length q.entries ≤ length l.entries + 1)
      × ((index : ℕ) (other : View) → Holds l index other → Holds q index other)
unfolding place_entry
place_entry-Holds l view v =
    let r = reserve_from-Reserved l.free_list l refl v in
    let (slot, table) = reserve_slot l in
    let entry : Entry = record { view = view; in_use = true } in
    let sized = length-set table.entries slot entry in
    (
      record {
        unused = unused-set table slot entry table.free_list r.absent r.valid.unused;
        distinct = r.valid.distinct;
      },
      record {
        inside = omega (arith, sized, r.inside);
        held = get_or-set_self table.entries slot entry no_entry r.inside;
      },
      omega (arith, sized, r.bounded),
      λ index other h. record {
        inside = omega (arith, sized, r.grown, h.inside);
        held =
            get_or-set_ne table.entries slot index entry no_entry (λ e. absurd (
              ground (
                arith,
                r.was_unused,
                ap (λ k. (entry_at l k).in_use) e,
                ap (λ x. x.in_use) h.held,
              )))
            ∙ r.entries_same index
            ∙ h.held;
      },
    )
