-- ===== src/FixedSlotStore/Invariant.antt =====
-- The representation invariant of `FixedSlotStore`, and that the calls keep it.
use orteaf.Prelude.{
  ℕ, ◌-◌, ◌≤◌, ◌<◌, ◌≡◌, refl, ◌∙◌, inl, inr, Bool, true, false, ltb, ◌==◌, ◌||◌, not, length,
  get_or, set, if◌then◌else◌, arith, length-set, Bool-cases, ==_iff, get_or-set_self, get_or-set_ne,
}
use orteaf.SlotPool.{Handle, Traits}
use orteaf.FixedSlotStore.Cursor.{advance_lem, get_or-set-false}
use orteaf.FixedSlotStore.{
  FixedSlotStore, size, is_valid, is_created, set_created, write_payload, skip_created,
  note_generation, emplace_by, destroy_by,
}

module _ {P R C W : Type 0} (t : Traits P R C W) where
  -- The vectors have one length, and the cursor stands at a slot that is not created or at the end.
  pub record IsValid (p : FixedSlotStore P W) : Type 0 where
    pub generations_length : length p.generations ≡ size p
    pub created_length : length p.created ≡ size p
    pub cursor_bound : p.next_uncreated_index ≤ size p
    pub cursor_free : get_or p.created p.next_uncreated_index false ≡ false
    pub addressable : size p ≤ t.invalid_index

module _ {P W : Type 0} where
  -- Every slot below the cursor is created.
  unfoldable pub IsFilled : FixedSlotStore P W → Type 0
  IsFilled p = (i : ℕ) → i < p.next_uncreated_index → get_or p.created i false ≡ true

module _ {P R C W : Type 0} (t : Traits P R C W) where
  -- The store after a hook ran on the slot of `h` and set its flag.
  abbrev written : FixedSlotStore P W → Handle → P → W → Bool → FixedSlotStore P W
  written p h x w flag = record (write_payload t (note_generation t p h) h.index x w) {
    created = set p.created h.index flag;
  }

  is_valid-write :
      (p : FixedSlotStore P W) (h : Handle) (x : P) (w : W)
      → length p.generations ≡ size p
      → is_valid t p h ≡ true
      → is_valid t (write_payload t (note_generation t p h) h.index x w) h ≡ true
  unfolding is_valid size
  is_valid-write p h x w l e = elim (Bool-cases t.has_generation) [
    | inr none_kept ↦ ground (arith, length-set p.payloads.items h.index x)
    | inl kept ↦ ground (
      arith,
      length-set p.payloads.items h.index x,
      get_or-set_self p.generations h.index h.generation 0,
    )
  ]

  -- The vectors, and the cursor before the loop has moved it.
  record IsLoose (p : FixedSlotStore P W) : Type 0 where
    generations_length : length p.generations ≡ size p
    created_length : length p.created ≡ size p
    cursor_bound : p.next_uncreated_index ≤ size p
    addressable : size p ≤ t.invalid_index

  skip_created-IsValid :
      (p : FixedSlotStore P W)
      → IsLoose p
      → IsValid t (skip_created t p) × (IsFilled p → IsFilled (skip_created t p))
  unfolding size IsFilled
  skip_created-IsValid p v =
      let n = p.next_uncreated_index in
      let a =
        advance_lem (size p - n) (size p) p.created n v.created_length v.cursor_bound
          (omega (arith, v.cursor_bound)) in
      (
        record {
          generations_length = v.generations_length;
          created_length = v.created_length;
          cursor_bound = a.1;
          cursor_free = a.2;
          addressable = v.addressable;
        },
        λ filled i below. elim (Bool-cases (ltb i n)) [
          | inl old ↦ filled i (ground (arith, old))
          | inr new ↦ a.3 i (ground (arith, new)) below
        ],
      )

  written-IsLoose :
      (p : FixedSlotStore P W) (h : Handle) (x : P) (w : W) (flag : Bool)
      → IsValid t p
      → IsLoose (written p h x w flag)
  unfolding size
  written-IsLoose p h x w flag v =
      let items = length-set p.payloads.items h.index x in
      record {
        generations_length =
            ground
              (arith, items, length-set p.generations h.index h.generation, v.generations_length);
        created_length = omega (arith, items, length-set p.created h.index flag, v.created_length);
        cursor_bound = omega (arith, items, v.cursor_bound);
        addressable = omega (arith, items, v.addressable);
      }

  -- A hook that fails leaves the flags and the cursor.
  failed-IsValid :
      (p : FixedSlotStore P W) (h : Handle) (x : P) (w : W)
      → IsValid t p
      → IsValid t (write_payload t (note_generation t p h) h.index x w)
  unfolding size
  failed-IsValid p h x w v =
      let l = written-IsLoose p h x w false v in
      record {
        generations_length = l.generations_length;
        created_length = omega (arith, length-set p.payloads.items h.index x, v.created_length);
        cursor_bound = l.cursor_bound;
        cursor_free = v.cursor_free;
        addressable = l.addressable;
      }

  written-IsFilled :
      (p : FixedSlotStore P W) (h : Handle) (x : P) (w : W)
      → IsValid t p
      → IsFilled p
      → IsFilled (written p h x w true)
  unfolding size IsFilled
  written-IsFilled p h x w v filled i below = elim (Bool-cases (h.index == i)) [
    | inl same ↦
        let e = (==_iff h.index i).0 same in
        rw⁻¹ e (
          get_or-set_self p.created h.index true false
            (omega (arith, v.created_length, v.cursor_bound)))
    | inr other ↦
        get_or-set_ne p.created h.index i true false (λ e. ground (arith, other, e))
        ∙ filled i below
  ]

  emplace_by-refused :
      (f : P → R → C → W → Bool × P × W) (p : FixedSlotStore P W) (h : Handle) (r : R) (c : C)
      → (not (is_valid t p h) || is_created t p h) ≡ true
      → emplace_by t f p h r c ≡ (false, p)
  unfolding emplace_by
  emplace_by-refused f p h r c e = rw e refl

  -- `emplace` on a valid slot that is not created.
  pub emplace_by-done :
      (f : P → R → C → W → Bool × P × W) (p : FixedSlotStore P W) (h : Handle) (r : R) (c : C)
      → length p.generations ≡ size p
      → is_valid t p h ≡ true
      → is_created t p h ≡ false
      → let (made, x, w) = f (get_or p.payloads.items h.index t.fresh) r c p.world in
        emplace_by t f p h r c ≡ (
          made,
          if made
              then skip_created t (written p h x w true)
              else write_payload t (note_generation t p h) h.index x w,
        )
  unfolding emplace_by set_created
  emplace_by-done f p h r c l e n =
      let m = f (get_or p.payloads.items h.index t.fresh) r c p.world in
      rw (e, n, is_valid-write p h m.1 m.2 l e) refl

  pub emplace_by-IsValid :
      (f : P → R → C → W → Bool × P × W) (p : FixedSlotStore P W) (h : Handle) (r : R) (c : C)
      → IsValid t p
      → let q = (emplace_by t f p h r c).1 in IsValid t q × (IsFilled p → IsFilled q)
  unfolding IsFilled
  emplace_by-IsValid f p h r c v = elim (Bool-cases (not (is_valid t p h) || is_created t p h)) [
    | inl refused ↦ rw (emplace_by-refused f p h r c refused) (v, λ filled. filled)
    | inr accepted ↦
        let m = f (get_or p.payloads.items h.index t.fresh) r c p.world in
        rw
          (emplace_by-done f p h r c v.generations_length (ground (arith, accepted))
            (ground (arith, accepted)))
          (elim (Bool-cases (m.0)) [
            | inr failed ↦ rw failed (failed-IsValid p h m.1 m.2 v, λ filled. filled)
            | inl made ↦
                let s =
                  skip_created-IsValid (written p h m.1 m.2 true)
                    (written-IsLoose p h m.1 m.2 true v) in
                rw made (s.0, λ filled. s.1 (written-IsFilled p h m.1 m.2 v filled))
          ])
  ]

  pub destroy_by-IsValid :
      (f : P → R → C → W → Bool × P × W) (p : FixedSlotStore P W) (h : Handle) (r : R) (c : C)
      → IsValid t p
      → IsValid t (destroy_by t f p h r c).1
  unfolding destroy_by set_created size
  destroy_by-IsValid f p h r c v =
      let x = (f (get_or p.payloads.items h.index t.fresh) r c p.world).1 in
      let items = length-set p.payloads.items h.index x in
      let flags = length-set p.created h.index false in
      record {
        generations_length = ground (arith, items, v.generations_length);
        created_length = ground (arith, items, flags, v.created_length);
        cursor_bound = ground (arith, items, v.cursor_bound);
        cursor_free = ground (
          arith,
          v.cursor_free,
          get_or-set-false p.created h.index p.next_uncreated_index v.cursor_free,
        );
        addressable = ground (arith, items, v.addressable);
      }
