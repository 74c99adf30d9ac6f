-- ===== src/Allocator/LargeEnd.antt =====
-- Deallocating from the table of large allocations
-- (orteaf/include/orteaf/internal/execution/allocator/policies/large_alloc/direct_resource_large_alloc.h).
use orteaf.Prelude.{
  ℕ, ◌^◌, ◌<◌, ◌≡◌, ◌≢◌, ◌⊎◌, inl, inr, refl, sym, ap, ◌∙◌, subst, arith, true, false, not, ◌||◌,
  leb, ◌==◌, Bool, Bool-cases, List, [], ◌∷◌, All, length, get_or, set, get_or-set_self,
  get_or-set_ne, length-set, lt→ltb, leb-false, ==→eq,
}
use orteaf.Allocator.{View, Resource, is_empty}
use orteaf.Allocator.ChunkLocator
use orteaf.Allocator.Large.{
  index_from_id-encode_id, is_large_alloc-encode_id, chunk_small, handle-of_index,
}
use orteaf.Allocator.LargeAlloc.{
  LargeAlloc, no_entry, entry_at, encode_id, index_from_id, is_large_alloc, is_alive, deallocate,
}
use orteaf.Allocator.LargeTable.{IsValid, Holds, Absent-unused}

-- The free entries stay free when another is cleared.
unused-clear :
    (l : LargeAlloc) (index : ℕ) (free : List ℕ)
    → All (λ i. (i < length l.entries) × ((entry_at l i).in_use ≡ false)) free
    → let q = record l { entries = set l.entries index no_entry } in
      All (λ i. (i < length q.entries) × ((entry_at q i).in_use ≡ false)) free
unused-clear l index [] h = tt
unused-clear l index (i ∷ free) h = (
  (
    omega (arith, length-set l.entries index no_entry, h.0.0),
    elim (Bool-cases (index == i)) [
      | inl same ↦
          let e = ==→eq index i same in
          subst (λ k. (get_or (set l.entries index no_entry) k no_entry).in_use ≡ false) e
            (ap (λ x. x.in_use)
              (get_or-set_self l.entries index no_entry no_entry
                (subst (λ k. k < length l.entries) (sym e) h.0.0)))
      | inr other ↦
          ap (λ x. x.in_use)
            (get_or-set_ne l.entries index i no_entry no_entry (λ e. ground (arith, other, e)))
          ∙ h.0.1
    ],
  ),
  unused-clear l index free h.1,
)

module _ {World : Type 0} (resource : Resource World) where
  -- What `deallocate` leaves of the table where it does something.
  abbrev pub cleared : LargeAlloc → ℕ → LargeAlloc
  cleared l index = record l {
    entries = set l.entries index no_entry;
    free_list = index ∷ l.free_list;
  }

  abbrev refuses : LargeAlloc → ℕ → Bool
  refuses l handle = not (is_large_alloc handle) || leb (length l.entries) (index_from_id handle)

  deallocate-cases :
      (l : LargeAlloc) (handle bytes alignment : ℕ) (w : World)
      → let index = index_from_id handle in
        (deallocate resource l handle bytes alignment w ≡ (l, w))
        ⊎ ((is_large_alloc handle ≡ true)
            × (index < length l.entries)
            × ((entry_at l index).in_use ≡ true)
            × (deallocate resource l handle bytes alignment w
                ≡ (cleared l index, resource.deallocate (entry_at l index).view bytes alignment w)))
  unfolding deallocate
  deallocate-cases l handle bytes alignment w = elim (Bool-cases (refuses l handle)) [
    | inl no_entry_there ↦ inl (rw no_entry_there refl)
    | inr there ↦ elim (Bool-cases ((entry_at l (index_from_id handle)).in_use)) [
      | inl used ↦ inr (ground (arith, there), ground (arith, there), used, rw (there, used) refl)
      | inr idle ↦ inl (rw (there, idle) refl)
    ]
  ]

  pub deallocate-IsValid :
      (l : LargeAlloc) (handle bytes alignment : ℕ) (w : World)
      → IsValid l
      → let q = (deallocate resource l handle bytes alignment w).0 in
        IsValid q × (length q.entries ≡ length l.entries)
  deallocate-IsValid l handle bytes alignment w v =
      let index = index_from_id handle in
      elim (deallocate-cases l handle bytes alignment w) [
        | inl same ↦ rw same (v, refl)
        | inr (large, inside, used, e) ↦ rw e (
          record {
            unused = (
              (
                omega (arith, inside, length-set l.entries index no_entry),
                ap (λ x. x.in_use) (get_or-set_self l.entries index no_entry no_entry inside),
              ),
              unused-clear l index l.free_list v.unused,
            );
            distinct = (Absent-unused l index l.free_list used v.unused, v.distinct);
          },
          length-set l.entries index no_entry,
        )
      ]

  -- Another handle's deallocation leaves the entry.
  pub deallocate-Holds :
      (l : LargeAlloc) (handle bytes alignment index : ℕ) (view : View) (w : World)
      → index < 2 ^ 31
      → handle ≢ encode_id index
      → handle < 2 ^ 32
      → Holds l index view
      → Holds (deallocate resource l handle bytes alignment w).0 index view
  deallocate-Holds l handle bytes alignment index view w small other wide h =
      let at = index_from_id handle in
      elim (deallocate-cases l handle bytes alignment w) [
        | inl same ↦ rw same h
        | inr (large, inside, used, e) ↦ rw e (record {
          inside = omega (arith, h.inside, length-set l.entries at no_entry);
          held =
              get_or-set_ne l.entries at index no_entry no_entry
                (λ f. other (handle-of_index handle index large wide f small))
              ∙ h.held;
        })
      ]

  -- The end of an entry that holds a region.
  pub deallocate-end :
      (l : LargeAlloc) (index bytes alignment : ℕ) (view : View) (w : World)
      → index < 2 ^ 31
      → is_empty view ≡ false
      → Holds l index view
      → let gone = deallocate resource l (encode_id index) bytes alignment w in
        (is_alive l (encode_id index) ≡ true)
        × (gone ≡ (cleared l index, resource.deallocate view bytes alignment w))
        × (is_alive (gone.0) (encode_id index) ≡ false)
        × (deallocate resource (gone.0) (encode_id index) bytes alignment (gone.1) ≡ gone)
  unfolding is_alive deallocate
  deallocate-end l index bytes alignment view w small full h =
      let wiped = get_or-set_self l.entries index no_entry no_entry h.inside in
      let sized = length-set l.entries index no_entry in
      rw
        (
          index_from_id-encode_id index small,
          is_large_alloc-encode_id index small,
          h.held,
          lt→ltb index (length l.entries) h.inside,
          leb-false (length l.entries) index h.inside,
          full,
        )
        (refl, refl, rw (wiped, sized) (ground arith), rw (wiped, sized) (ground arith))

  -- A chunk's handle is no large one: `deallocate` changes nothing for it.
  deallocate-chunk :
      (l : LargeAlloc) (slot bytes alignment : ℕ) (w : World)
      → deallocate resource l (ChunkLocator.encode_id slot) bytes alignment w ≡ (l, w)
  unfolding deallocate
  deallocate-chunk l slot bytes alignment w = rw (chunk_small slot) refl
