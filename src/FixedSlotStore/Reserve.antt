-- ===== src/FixedSlotStore/Reserve.antt =====
-- What `tryReserveUncreated` of `FixedSlotStore` hands out.
use orteaf.Prelude.{
  ℕ, ◌<◌, ◌≡◌, ◌≢◌, ◌⊎◌, refl, ◌∙◌, inl, inr, Bool, true, false, List, leb, get_or, set, arith,
  Bool-cases, length-set, get_or-set_self, get_or-set_ne, if◌then◌else◌,
}
use orteaf.SlotPool.{Handle, Traits, invalid_handle}
use orteaf.FixedSlotStore.{
  FixedSlotStore, size, is_valid, is_created, make_handle, set_created, write_payload, destroy_by,
  try_reserve_uncreated,
}
use orteaf.FixedSlotStore.Invariant.{IsValid, IsFilled}
use orteaf.FixedSlotStore.History.{Call, start, perform_all, all_keep_payloads, history-IsValid}

module _ {P R C W : Type 0} (t : Traits P R C W) where
  make_handle-is_valid :
      (p : FixedSlotStore P W) (i : ℕ) → i < size p → is_valid t p (make_handle t p i) ≡ true
  unfolding is_valid make_handle
  make_handle-is_valid p i h = ground (arith, h)

  -- In a well-formed store the cursor alone decides.
  try_reserve-cursor :
      (p : FixedSlotStore P W)
      → IsValid t p
      → try_reserve_uncreated t p ≡ (
          if leb (size p) p.next_uncreated_index
          then invalid_handle t
          else make_handle t p p.next_uncreated_index)
  unfolding try_reserve_uncreated
  try_reserve-cursor p v = rw v.cursor_free refl

  try_reserve-filled :
      (p : FixedSlotStore P W)
      → IsValid t p
      → IsFilled p
      → let h = try_reserve_uncreated t p in
        ((h ≡ make_handle t p h.index)
          × (is_valid t p h ≡ true)
          × (is_created t p h ≡ false)
          × ((i : ℕ) → i < h.index → get_or p.created i false ≡ true))
        ⊎ ((h ≡ invalid_handle t) × ((i : ℕ) → i < size p → get_or p.created i false ≡ true))
  unfolding make_handle is_created IsFilled
  try_reserve-filled p v filled =
      rw (try_reserve-cursor p v) (elim (Bool-cases (leb (size p) p.next_uncreated_index)) [
        | inl over ↦ rw over (inr (refl, λ i below. filled i (ground (arith, over))))
        | inr inside ↦
            let valid = make_handle-is_valid p p.next_uncreated_index (ground (arith, inside)) in
            rw inside (inl (refl, valid, rw (valid, v.cursor_free) refl, filled))
      ])

  -- After calls on a new store none of which destroys a payload alone, `tryReserveUncreated` names
  -- the first slot that is not created, by a valid handle, and refuses exactly if every slot is
  -- created.
  pub perform_all-try_reserve_uncreated :
      (w : W) (calls : List (Call t))
      → all_keep_payloads t calls ≡ true
      → let p = perform_all t (start t w) calls in
        let h = try_reserve_uncreated t p in
        ((h ≡ make_handle t p h.index)
          × (is_valid t p h ≡ true)
          × (is_created t p h ≡ false)
          × ((i : ℕ) → i < h.index → get_or p.created i false ≡ true))
        ⊎ ((h ≡ invalid_handle t) × ((i : ℕ) → i < size p → get_or p.created i false ≡ true))
  perform_all-try_reserve_uncreated w calls e =
      let k = history-IsValid t w calls in
      try_reserve-filled (perform_all t (start t w) calls) k.0 (k.1 e)

  -- The store after the payload in the slot of `h` was destroyed.
  abbrev destroyed : FixedSlotStore P W → Handle → P → W → FixedSlotStore P W
  destroyed p h x w = record (write_payload t p h.index x w) {
    created = set p.created h.index false;
  }

  is_valid-write_payload :
      (p : FixedSlotStore P W) (h : Handle) (x : P) (w : W)
      → is_valid t (write_payload t p h.index x w) h ≡ is_valid t p h
  unfolding is_valid size
  is_valid-write_payload p h x w = rw (length-set p.payloads.items h.index x) refl

  created-valid :
      (p : FixedSlotStore P W) (h : Handle)
      → is_created t p h ≡ true
      → (is_valid t p h ≡ true) × (h.index < size p) × (get_or p.created h.index false ≡ true)
  unfolding is_created is_valid
  created-valid p h e = ground (arith, e)

  destroy_by-destroyed :
      (f : P → R → C → W → Bool × P × W) (p : FixedSlotStore P W) (h : Handle) (r : R) (c : C)
      → is_created t p h ≡ true
      → let (done, x, w) = f (get_or p.payloads.items h.index t.fresh) r c p.world in
        done ≡ true → (destroy_by t f p h r c).1 ≡ destroyed p h x w
  unfolding destroy_by set_created
  destroy_by-destroyed f p h r c made done =
      let m = f (get_or p.payloads.items h.index t.fresh) r c p.world in
      let valid = (created-valid p h made).0 in
      rw (valid, made, done, is_valid-write_payload p h m.1 m.2, valid) refl

  destroyed-try_reserve :
      (p : FixedSlotStore P W) (h : Handle) (x : P) (w : W)
      → IsValid t p
      → is_created t p h ≡ true
      → try_reserve_uncreated t (destroyed p h x w) ≡ try_reserve_uncreated t p
  unfolding try_reserve_uncreated size make_handle
  destroyed-try_reserve p h x w v made =
      let slot = created-valid p h made in
      rw
        (
          length-set p.payloads.items h.index x,
          get_or-set_ne p.created h.index p.next_uncreated_index false false
              (λ e. ground (arith, slot.2, v.cursor_free, e)),
        )
        refl

  try_reserve-elsewhere :
      (p : FixedSlotStore P W) (h : Handle)
      → IsValid t p
      → is_created t p h ≡ true
      → (try_reserve_uncreated t p).index ≢ h.index
  unfolding make_handle
  try_reserve-elsewhere p h v made =
      let slot = created-valid p h made in
      rw (try_reserve-cursor p v) (elim (Bool-cases (leb (size p) p.next_uncreated_index)) [
        | inl over ↦ rw over (λ e. omega (arith, e, slot.1, v.addressable))
        | inr inside ↦ rw inside (λ e. ground (arith, slot.2, v.cursor_free, e))
      ])

  -- A created slot whose payload `destroy` has destroyed is valid and not created, and
  -- `tryReserveUncreated` does not name it: it answers as it did before.
  pub destroy_by-try_reserve_uncreated :
      (f : P → R → C → W → Bool × P × W) (p : FixedSlotStore P W) (h : Handle) (r : R) (c : C)
      → IsValid t p
      → is_created t p h ≡ true
      → (f (get_or p.payloads.items h.index t.fresh) r c p.world).0 ≡ true
      → let q = (destroy_by t f p h r c).1 in
        (is_valid t q h ≡ true)
        × (is_created t q h ≡ false)
        × (try_reserve_uncreated t q ≡ try_reserve_uncreated t p)
        × ((try_reserve_uncreated t q).index ≢ h.index)
  unfolding is_valid
  destroy_by-try_reserve_uncreated f p h r c v made done =
      let m = f (get_or p.payloads.items h.index t.fresh) r c p.world in
      let slot = created-valid p h made in
      let valid = is_valid-write_payload p h m.1 m.2 ∙ slot.0 in
      let same = destroyed-try_reserve p h m.1 m.2 v made in
      rw (destroy_by-destroyed f p h r c made done) (
        valid,
        unfold is_created in
            rw valid (
              get_or-set_self p.created h.index false false
                (omega (arith, slot.1, v.created_length))),
        same,
        rw same (try_reserve-elsewhere p h v made),
      )
