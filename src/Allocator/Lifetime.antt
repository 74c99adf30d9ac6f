-- ===== src/Allocator/Lifetime.antt =====
-- The life of a large allocation
-- (orteaf/include/orteaf/internal/execution/allocator/policies/large_alloc/direct_resource_large_alloc.h)
-- among other calls.
use orteaf.Prelude.{
  ℕ, ◌^◌, ◌<◌, ◌≡◌, ◌≢◌, ◌⊎◌, inl, inr, refl, sym, ap, ◌∙◌, subst, arith, true, false, ◌==◌,
  Bool-cases, List, [], ◌∷◌, All, length,
}
use orteaf.Diagnostics.{Errc, invalid_state, Result, ok, err, ok_inj}
use orteaf.Allocator.{View, BufferBlock, no_block, Resource, is_empty}
use orteaf.Allocator.Large.{index_from_id-encode_id}
use orteaf.Allocator.LargeAlloc.{
  LargeAlloc, encode_id, index_from_id, is_alive, reserve_slot, place_entry, allocate, deallocate,
}
use orteaf.Allocator.LargeTable.{IsValid, Holds, place_entry-Holds}
use orteaf.Allocator.LargeEnd.{deallocate-IsValid, deallocate-Holds, deallocate-end}

-- Calls on the table and the resource; one that throws changes nothing.
pub data Call : Type 0 where
  allocates : ℕ → ℕ → Call
  deallocates : ℕ → ℕ → ℕ → Call

-- The call does not deallocate the handle, and handles have 32 bits.
unfoldable pub Spares : ℕ → Call → Type 0
Spares handle (allocates bytes alignment) = Unit {0}
Spares handle (deallocates h bytes alignment) = (h ≢ handle) × (h < 2 ^ 32)

module _ {World : Type 0} (resource : Resource World) where
  abbrev kept_or :
      LargeAlloc × World → Result (BufferBlock × LargeAlloc × World) → LargeAlloc × World
  kept_or before (ok (block, l, w)) = (l, w)
  kept_or before (err code) = before

  unfoldable pub perform : LargeAlloc × World → Call → LargeAlloc × World
  perform (l, w) (allocates bytes alignment) =
      kept_or (l, w) (allocate resource l bytes alignment w)
  perform (l, w) (deallocates handle bytes alignment) =
      deallocate resource l handle bytes alignment w

  unfoldable pub perform_all : LargeAlloc × World → List Call → LargeAlloc × World
  unfolding perform
  perform_all s [] = s
  perform_all s (call ∷ calls) = perform_all (perform s call) calls

  allocate-cases :
      (l : LargeAlloc) (bytes alignment : ℕ) (w : World)
      → let r = resource.allocate bytes alignment w in
        let p = place_entry (r.0) l in
        ((code : Errc) × (allocate resource l bytes alignment w ≡ err code))
        ⊎ ((w' : World) × (allocate resource l bytes alignment w ≡ ok (no_block, l, w')))
        ⊎ ((is_empty r.0 ≡ false) × (allocate resource l bytes alignment w ≡ ok (p.0, p.1, r.1)))
  unfolding allocate
  allocate-cases l bytes alignment w =
      let r = resource.allocate bytes alignment w in
      elim (Bool-cases l.has_resource) [
        | inr absent ↦ inl (invalid_state, rw absent refl)
        | inl present ↦ elim (Bool-cases (bytes == 0)) [
          | inl nothing ↦ inr (inl (w, rw (present, nothing) refl))
          | inr asked ↦ elim (Bool-cases (is_empty r.0)) [
            | inl refused ↦ inr (inl (r.1, rw (present, asked, refused) refl))
            | inr given ↦ inr (inr (given, rw (present, asked, given) refl))
          ]
        ]
      ]

  perform-Holds :
      (l : LargeAlloc) (w : World) (call : Call) (index : ℕ) (view : View)
      → IsValid l
      → Holds l index view
      → index < 2 ^ 31
      → Spares (encode_id index) call
      → let q = (perform (l, w) call).0 in IsValid q × Holds q index view
  unfolding perform Spares
  perform-Holds l w (deallocates handle bytes alignment) index view v h small s = (
    (deallocate-IsValid resource l handle bytes alignment w v).0,
    deallocate-Holds resource l handle bytes alignment index view w small s.0 s.1 h,
  )
  perform-Holds l w (allocates bytes alignment) index view v h small s =
      elim (allocate-cases l bytes alignment w) [
        | inl (code, e) ↦ rw e (v, h)
        | inr (inl (w', e)) ↦ rw e (v, h)
        | inr (inr (given, e)) ↦
            let placed = place_entry-Holds l (resource.allocate bytes alignment w).0 v in
            rw e (placed.0, placed.3 index view h)
      ]

  perform_all-Holds :
      (calls : List Call) (l : LargeAlloc) (w : World) (index : ℕ) (view : View)
      → IsValid l
      → Holds l index view
      → index < 2 ^ 31
      → All (Spares (encode_id index)) calls
      → Holds (perform_all (l, w) calls).0 index view
  unfolding perform_all
  perform_all-Holds [] l w index view v h small s = h
  perform_all-Holds (call ∷ calls) l w index view v h small s =
      let (q, w') = perform (l, w) call in
      let first = perform-Holds l w call index view v h small s.0 in
      perform_all-Holds calls q w' index view first.0 first.1 small s.1

  allocate-Holds :
      (l q : LargeAlloc) (block : BufferBlock) (bytes alignment : ℕ) (w w' : World)
      → IsValid l
      → length l.entries < 2 ^ 31
      → allocate resource l bytes alignment w ≡ ok (block, q, w')
      → is_empty block.view ≡ false
      → (index : ℕ) × (index < 2 ^ 31)
        × (block.handle ≡ encode_id index)
        × IsValid q
        × Holds q index block.view
  unfolding place_entry
  allocate-Holds l q block bytes alignment w w' v small e full =
      let view = (resource.allocate bytes alignment w).0 in
      let slot = (reserve_slot l).0 in
      elim (allocate-cases l bytes alignment w) [
        | inl (code, f) ↦
            let clash : err code ≡ ok (block, q, w') = sym f ∙ e in absurd (ground (arith, clash))
        | inr (inl (w1, f)) ↦
            let same = ok_inj (no_block, l, w1) (block, q, w') (sym f ∙ e) in
            absurd (ground (arith, full, ap (λ x. is_empty x.0.view) same))
        | inr (inr (given, f)) ↦
            let p = place_entry view l in
            let same =
              ok_inj (p.0, p.1, (resource.allocate bytes alignment w).1) (block, q, w')
                (sym f ∙ e) in
            let placed = place_entry-Holds l view v in
            subst
              (λ x.
                (index : ℕ) × (index < 2 ^ 31)
                × (x.0.handle ≡ encode_id index)
                × IsValid x.1
                × Holds x.1 index x.0.view)
              same (slot, omega (arith, placed.1.inside, placed.2), refl, placed.0, placed.1)
      ]

  -- A region is allocated from a table with fewer than 2^31 entries whose free indices are those of
  -- entries that are not in use, each once. Whatever allocations and deallocations of other handles
  -- follow, chunk handles included, the handle is alive, and its deallocation returns the region to
  -- the resource, puts its index on the free list and ends its life: a second one changes nothing.
  pub perform_all-deallocate :
      (l q : LargeAlloc) (block : BufferBlock) (bytes alignment : ℕ) (w w' : World)
      (calls : List Call)
      → IsValid l
      → length l.entries < 2 ^ 31
      → allocate resource l bytes alignment w ≡ ok (block, q, w')
      → is_empty block.view ≡ false
      → All (Spares block.handle) calls
      → let (now, world) = perform_all (q, w') calls in
        let gone = deallocate resource now block.handle bytes alignment world in
        (is_alive now block.handle ≡ true)
        × (gone.1 ≡ resource.deallocate block.view bytes alignment world)
        × ((gone.0).free_list ≡ index_from_id block.handle ∷ now.free_list)
        × (is_alive (gone.0) block.handle ≡ false)
        × (deallocate resource (gone.0) block.handle bytes alignment (gone.1) ≡ gone)
  perform_all-deallocate l q block bytes alignment w w' calls v room e full spared =
      let (index, small, named, valid, held) =
        allocate-Holds l q block bytes alignment w w' v room e full in
      let kept =
        perform_all-Holds calls q w' index block.view valid held small
          (subst (λ h. All (Spares h) calls) named spared) in
      let (now, world) = perform_all (q, w') calls in
      let life =
        deallocate-end resource now index bytes alignment block.view world small full kept in
      rw named (
        life.0,
        ap (λ x. x.1) life.1,
        ap (λ x. x.0.free_list) life.1
            ∙ ap (λ i. i ∷ now.free_list) (sym (index_from_id-encode_id index small)),
        life.2,
        life.3,
      )
