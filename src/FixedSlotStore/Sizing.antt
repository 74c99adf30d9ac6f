-- ===== src/FixedSlotStore/Sizing.antt =====
-- The calls of `FixedSlotStore` on all slots keep its invariant.
use orteaf.Prelude.{
  ℕ, zero, suc, ◌+◌, ◌-◌, ◌≤◌, ◌≡◌, refl, sym, ◌∙◌, inl, inr, Bool, true, false, ◌++◌, ltb, ◌==◌,
  ◌||◌, length, get_or, replicate, if◌then◌else◌, arith, length-append, length-replicate,
  Bool-cases, get_or-append_left, get_or-append_right, get_or-replicate,
}
use orteaf.BlockVector
use orteaf.BlockVector.Laws.{size-resize, size-reserve, size-resize_blocks}
use orteaf.SlotPool.{Traits}
use orteaf.FixedSlotStore.Cursor.{get_or-beyond}
use orteaf.FixedSlotStore.Invariant.{IsValid, IsFilled, emplace_by-IsValid}
use orteaf.FixedSlotStore.{FixedSlotStore, size, make_handle, emplace}
use orteaf.FixedSlotStore.Storage.{
  set_block_size, reserve, resize, create_slots, create_range, clear,
}

module _ {P R C W : Type 0} (t : Traits P R C W) where
  -- What `resize` leaves when it grows the store.
  abbrev grown : FixedSlotStore P W → ℕ → FixedSlotStore P W
  grown p n = record p {
    payloads = BlockVector.resize t.fresh p.payloads n;
    generations = p.generations ++ replicate (n - length p.generations) 0;
    created = p.created ++ replicate (n - length p.created) false;
  }

  size-grown : (p : FixedSlotStore P W) (n : ℕ) → size p ≤ n → size (grown p n) ≡ n
  unfolding size
  size-grown p n h = size-resize t.fresh p.payloads n h

  -- New flags read `false`, as the ends of the old ones did.
  created-grown :
      (p : FixedSlotStore P W) (n i : ℕ)
      → get_or (p.created ++ replicate (n - length p.created) false) i false
        ≡ get_or p.created i false
  created-grown p n i =
      let more = replicate (n - length p.created) false in
      elim (Bool-cases (ltb i (length p.created))) [
        | inl inside ↦ get_or-append_left p.created more i false (ground (arith, inside))
        | inr out ↦
            get_or-append_right p.created more i false (ground (arith, out))
            ∙ get_or-replicate (n - length p.created) false (i - length p.created)
            ∙ sym (get_or-beyond p.created i false (ground (arith, out)))
      ]

  grown-IsValid :
      (p : FixedSlotStore P W) (n : ℕ)
      → IsValid t p
      → size p ≤ n
      → n ≤ t.invalid_index
      → IsValid t (grown p n)
  grown-IsValid p n v lo hi =
      let e = size-grown p n lo in
      record {
        generations_length = omega (
          arith,
          e,
          v.generations_length,
          length-append p.generations (replicate (n - length p.generations) 0),
          length-replicate {A = ℕ} (n - length p.generations) 0,
        );
        created_length = omega (
          arith,
          e,
          v.created_length,
          length-append p.created (replicate (n - length p.created) false),
          length-replicate (n - length p.created) false,
        );
        cursor_bound = omega (arith, e, v.cursor_bound);
        cursor_free = created-grown p n p.next_uncreated_index ∙ v.cursor_free;
        addressable = omega (arith, e);
      }

  pub resize-IsValid :
      (p : FixedSlotStore P W) (n : ℕ)
      → IsValid t p
      → let q = (resize t p n).1 in IsValid t q × (IsFilled p → IsFilled q)
  unfolding resize IsFilled
  resize-IsValid p n v = elim (Bool-cases (ltb n (size p))) [
    | inl less ↦ rw less (v, λ filled. filled)
    | inr enough ↦ elim (Bool-cases (ltb t.invalid_index n)) [
      | inl over ↦ rw (enough, over) (v, λ filled. filled)
      | inr fits ↦ elim (Bool-cases (n == size p)) [
        | inl same ↦ rw (enough, fits, same) (v, λ filled. filled)
        | inr larger ↦
            rw (enough, fits, larger)
              (
                grown-IsValid p n v (ground (arith, enough)) (ground (arith, fits)),
                λ filled i below. created-grown p n i ∙ filled i below,
              )
      ]
    ]
  ]

  pub set_block_size-IsValid :
      (p : FixedSlotStore P W) (n : ℕ) → IsValid t p → IsValid t (set_block_size t p n).1
  unfolding set_block_size size
  set_block_size-IsValid p n v = ground (arith, v, size-resize_blocks p.payloads n)

  pub reserve-IsValid : (p : FixedSlotStore P W) (n : ℕ) → IsValid t p → IsValid t (reserve t p n).1
  unfolding reserve size
  reserve-IsValid p n v = ground (arith, v, size-reserve p.payloads n)

  pub set_block_size-IsFilled :
      (p : FixedSlotStore P W) (n : ℕ) → IsFilled p → IsFilled (set_block_size t p n).1
  unfolding set_block_size
  set_block_size-IsFilled p n filled = elim (Bool-cases (n == 0)) [
    | inl zeroed ↦ rw zeroed filled
    | inr kept ↦ unfold IsFilled in rw kept filled
  ]

  pub reserve-IsFilled : (p : FixedSlotStore P W) (n : ℕ) → IsFilled p → IsFilled (reserve t p n).1
  unfolding reserve
  reserve-IsFilled p n filled = elim (Bool-cases (ltb t.invalid_index n)) [
    | inl over ↦ rw over filled
    | inr fits ↦ unfold IsFilled in rw fits filled
  ]

  create_slots-IsValid :
      (rounds idx : ℕ) (all : Bool) (r : R) (c : C) (p : FixedSlotStore P W)
      → IsValid t p
      → let q = (create_slots t rounds idx all r c p).1 in IsValid t q × (IsFilled p → IsFilled q)
  unfolding create_slots emplace
  create_slots-IsValid zero idx all r c p v = (v, λ filled. filled)
  create_slots-IsValid (suc rounds) idx all r c p v =
      let h = make_handle t p idx in
      let step = emplace t p h (t.set_handle r h) c in
      let first = emplace_by-IsValid t t.create p h (t.set_handle r h) c v in
      let rest =
        create_slots-IsValid rounds (idx + 1) (if step.0 then all else false) r c step.1 first.0 in
      (rest.0, λ filled. rest.1 (first.1 filled))

  pub create_range-IsValid :
      (p : FixedSlotStore P W) (start end : ℕ) (r : R) (c : C)
      → IsValid t p
      → let q = (create_range t p start end r c).1 in IsValid t q × (IsFilled p → IsFilled q)
  unfolding create_range
  create_range-IsValid p start end r c v = elim (Bool-cases (ltb end start || ltb (size p) end)) [
    | inl out ↦ rw out (v, λ filled. filled)
    | inr inside ↦ rw inside (create_slots-IsValid (end - start) start true r c p v)
  ]

  pub clear-IsValid :
      (p : FixedSlotStore P W) (r : R) (c : C) → let q = clear t p r c in IsValid t q × IsFilled q
  unfolding clear size BlockVector.clear BlockVector.size IsFilled
  clear-IsValid p r c = (
    record {
      generations_length = refl;
      created_length = refl;
      cursor_bound = omega arith;
      cursor_free = refl;
      addressable = omega arith;
    },
    λ i below. absurd (omega arith),
  )
