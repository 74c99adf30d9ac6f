-- ===== src/SlotPool/Invariant.antt =====
-- The representation invariant of `SlotPool`, and that the methods keep it.
use orteaf.Prelude.{
  ℕ, zero, suc, ◌+◌, ◌-◌, ◌%◌, ◌≤◌, ◌≡◌, refl, ap, ◌∙◌, sym, inl, inr, Bool, true, false, List, [],
  ◌∷◌, ◌++◌, ltb, ◌==◌, length, get_or, replicate, range_from, Absent, IsDistinct, Below,
  if◌then◌else◌, ◌||◌, arith, length-set, length-append, length-replicate, Bool-cases, ==_iff,
  Below-mono, Below-append, Below-range_from, IsDistinct-range_append, range_from-snoc, ltb-false,
}
use orteaf.Diagnostics.{ok}
use orteaf.BlockVector
use orteaf.BlockVector.{BlockVector}
use orteaf.BlockVector.Laws.{size-resize}
use orteaf.SlotPool.{
  Handle, Traits, SlotPool, size, is_valid, make_handle, set_created, emplace_by, emplace,
  destroy_by, destroy, destroy_hook,
}
use orteaf.SlotPool.Acquire.{release_impl}
use orteaf.SlotPool.Storage.{push_indices, resize, create_slots, create_range, destroy_slots, clear}

module _ {P R C W : Type 0} (t : Traits P R C W) where
  pub record IsValid (p : SlotPool P W) : Type 0 where
    pub generations_length : length p.generations ≡ size p
    pub created_length : length p.created ≡ size p
    pub in_range : Below (size p) p.freelist
    pub distinct : IsDistinct p.freelist
    pub addressable : size p ≤ t.invalid_index

module _ {P W : Type 0} where
  -- The pools have the same slots, generations and freelist.
  pub record SameSlots (p q : SlotPool P W) : Type 0 where
    pub same_size : size q ≡ size p
    pub same_generations : q.generations ≡ p.generations
    pub same_created_length : length q.created ≡ length p.created
    pub same_freelist : q.freelist ≡ p.freelist

  SameSlots-refl : (p : SlotPool P W) → SameSlots p p
  SameSlots-refl p = record {
    same_size = refl;
    same_generations = refl;
    same_created_length = refl;
    same_freelist = refl;
  }

  SameSlots-trans : {p q r : SlotPool P W} → SameSlots p q → SameSlots q r → SameSlots p r
  SameSlots-trans a b = record {
    same_size = omega (arith, a.same_size, b.same_size);
    same_generations = b.same_generations ∙ a.same_generations;
    same_created_length = omega (arith, a.same_created_length, b.same_created_length);
    same_freelist = b.same_freelist ∙ a.same_freelist;
  }

push_indices_lem :
    (rounds i : ℕ) (free : List ℕ) (old : ℕ)
    → i ≡ old + rounds
    → push_indices rounds i free ≡ range_from old rounds ++ free
unfolding push_indices
push_indices_lem zero i free old e = refl
push_indices_lem (suc rounds) i free old e =
    push_indices_lem rounds (i - 1) ((i - 1) ∷ free) old (omega arith)
    ∙ range_from-snoc old rounds (i - 1) free (omega arith)

module _ {P R C W : Type 0} (t : Traits P R C W) where
  pub SameSlots-IsValid : {p q : SlotPool P W} → SameSlots p q → IsValid t p → IsValid t q
  SameSlots-IsValid {p} {q} s v = record {
    generations_length = omega (arith, ap length s.same_generations);
    created_length = omega arith;
    in_range = rw (s.same_size, s.same_freelist) v.in_range;
    distinct = rw s.same_freelist v.distinct;
    addressable = omega arith;
  }

  pub emplace_by-SameSlots :
      (f : P → R → C → W → Bool × P × W) (p : SlotPool P W) (h : Handle) (r : R) (c : C)
      → SameSlots p (emplace_by t f p h r c).1
  unfolding emplace_by set_created size
  emplace_by-SameSlots f p h r c = ground (
    arith,
    length-set p.payloads.items h.index
        ((f (get_or p.payloads.items h.index t.fresh) r c p.world).1),
    length-set p.created h.index true,
  )

  pub destroy_by-SameSlots :
      (f : P → R → C → W → Bool × P × W) (p : SlotPool P W) (h : Handle) (r : R) (c : C)
      → SameSlots p (destroy_by t f p h r c).1
  unfolding destroy_by set_created size
  destroy_by-SameSlots f p h r c = ground (
    arith,
    length-set p.payloads.items h.index
        ((f (get_or p.payloads.items h.index t.fresh) r c p.world).1),
    length-set p.created h.index false,
  )

  pub emplace-SameSlots :
      (p : SlotPool P W) (h : Handle) (r : R) (c : C) → SameSlots p (emplace t p h r c).1
  unfolding emplace
  emplace-SameSlots p h r c = emplace_by-SameSlots t.create p h r c

  pub destroy-SameSlots :
      (p : SlotPool P W) (h : Handle) (r : R) (c : C) → SameSlots p (destroy t p h r c).1
  unfolding destroy
  destroy-SameSlots p h r c = destroy_by-SameSlots (destroy_hook t) p h r c

  pub release_impl-IsValid :
      (p : SlotPool P W) (h : Handle)
      → IsValid t p
      → Absent h.index p.freelist
      → IsValid t (release_impl t p h).1
  unfolding release_impl size is_valid
  release_impl-IsValid p h v a = ground (
    arith,
    length-set p.generations h.index ((get_or p.generations h.index 0 + 1) % t.generation_count),
  )

  pub create_slots-SameSlots :
      (rounds idx : ℕ) (all : Bool) (r : R) (c : C) (p : SlotPool P W)
      → SameSlots p (create_slots t rounds idx all r c p).1
  unfolding create_slots
  create_slots-SameSlots zero idx all r c p = SameSlots-refl p
  create_slots-SameSlots (suc rounds) idx all r c p =
      let h = make_handle t p idx in
      let step = emplace t p h (t.set_handle r h) c in
      SameSlots-trans (emplace-SameSlots p h (t.set_handle r h) c)
        (create_slots-SameSlots rounds (idx + 1) (if step.0 then all else false) r c step.1)

  pub create_range-IsValid :
      (p : SlotPool P W) (start end : ℕ) (r : R) (c : C)
      → IsValid t p
      → IsValid t (create_range t p start end r c).1
  unfolding create_range
  create_range-IsValid p start end r c v = elim (Bool-cases (ltb end start || ltb (size p) end)) [
    | inl out ↦ rw out v
    | inr inside ↦
        rw inside (SameSlots-IsValid (create_slots-SameSlots (end - start) start true r c p) v)
  ]

  -- What `resize` leaves when it grows the pool.
  abbrev grown : SlotPool P W → ℕ → SlotPool P W
  grown p n = record p {
    payloads = BlockVector.resize t.fresh p.payloads n;
    generations = p.generations ++ replicate (n - length p.generations) 0;
    created = p.created ++ replicate (n - length p.created) false;
    freelist = range_from (size p) (n - size p) ++ p.freelist;
  }

  size-grown : (p : SlotPool P W) (n : ℕ) → size p ≤ n → size (grown p n) ≡ n
  unfolding size
  size-grown p n h = size-resize t.fresh p.payloads n h

  grown-IsValid :
      (p : SlotPool P W) (n : ℕ)
      → IsValid t p
      → size p ≤ n
      → n ≤ t.invalid_index
      → IsValid t (grown p n)
  grown-IsValid p n v lo hi = record {
    generations_length = omega (
      arith,
      size-grown p n lo,
      length-append p.generations (replicate (n - length p.generations) 0),
      length-replicate {A = ℕ} (n - length p.generations) 0,
    );
    created_length = omega (
      arith,
      size-grown p n lo,
      length-append p.created (replicate (n - length p.created) false),
      length-replicate (n - length p.created) false,
    );
    in_range = rw (size-grown p n lo) (
        Below-append n (range_from (size p) (n - size p)) p.freelist
          (Below-range_from n (size p) (n - size p) (omega arith))
          (Below-mono (size p) n p.freelist lo v.in_range));
    distinct = IsDistinct-range_append (size p) (n - size p) p.freelist v.in_range v.distinct;
    addressable = omega (arith, size-grown p n lo);
  }

  -- A valid pool grows to any size that handles can address, and keeps its old slots. The new
  -- slots are uncreated, have generation 0 and are free, the lowest to be taken first.
  pub resize_grows :
      (p : SlotPool P W) (n : ℕ)
      → IsValid t p
      → size p ≤ n
      → n ≤ t.invalid_index
      → (resize t p n ≡ (ok (size p), if n == size p then p else grown p n))
        × (size (resize t p n).1 ≡ n)
  unfolding resize
  resize_grows p n v lo hi = elim (Bool-cases (n == size p)) [
    | inl same ↦
        let e : n ≡ size p = (==_iff n (size p)).0 same in
        rw (ltb-false n (size p) lo, ltb-false t.invalid_index n hi, same) (refl, sym e)
    | inr larger ↦
        rw
          (
            ltb-false n (size p) lo,
            ltb-false t.invalid_index n hi,
            larger,
            push_indices_lem (n - size p) n p.freelist (size p) (omega arith),
          )
          (refl, size-grown p n lo)
  ]

  pub resize-IsValid : (p : SlotPool P W) (n : ℕ) → IsValid t p → IsValid t (resize t p n).1
  resize-IsValid p n v = elim (Bool-cases (ltb n (size p))) [
    | inl less ↦ unfold resize in rw less v
    | inr enough ↦ elim (Bool-cases (ltb t.invalid_index n)) [
      | inl over ↦ unfold resize in rw (enough, over) v
      | inr fits ↦
          rw (resize_grows p n v (ground arith) (ground arith)).0 (elim (Bool-cases (n == size p)) [
            | inl same ↦ rw same v
            | inr larger ↦ rw larger (grown-IsValid p n v (ground arith) (ground arith))
          ])
    ]
  ]

  destroy_slots-SameSlots :
      (rounds idx : ℕ) (r : R) (c : C) (p : SlotPool P W)
      → SameSlots p (destroy_slots t rounds idx r c p)
  unfolding destroy_slots
  destroy_slots-SameSlots zero idx r c p = SameSlots-refl p
  destroy_slots-SameSlots (suc rounds) idx r c p =
      let q = if get_or p.created idx false then (destroy t p (make_handle t p idx) r c).1 else p in
      SameSlots-trans {q = q}
        (elim (Bool-cases (get_or p.created idx false)) [
          | inl made ↦ rw made (destroy-SameSlots p (make_handle t p idx) r c)
          | inr bare ↦ rw bare (SameSlots-refl p)
        ])
        (destroy_slots-SameSlots rounds (idx + 1) r c q)

  -- `clear` leaves an empty pool.
  pub clear-IsValid :
      (p : SlotPool P W) (r : R) (c : C)
      → IsValid t (clear t p r c) × (size (clear t p r c) ≡ 0) × ((clear t p r c).freelist ≡ [])
  unfolding clear size BlockVector.clear
  clear-IsValid p r c = (
    record {
      generations_length = refl;
      created_length = refl;
      in_range = tt;
      distinct = tt;
      addressable = omega arith;
    },
    refl,
    refl,
  )
