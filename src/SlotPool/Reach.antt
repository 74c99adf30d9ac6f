-- ===== src/SlotPool/Reach.antt =====
-- Every history of calls keeps the invariant of `SlotPool`.
use orteaf.Prelude.{
  ℕ, ◌≡◌, refl, Bool, false, List, [], ◌∷◌, get_or, Absent, arith, Bool-cases, inl, inr,
}
use orteaf.BlockVector.Laws.{size-reserve, size-resize_blocks}
use orteaf.SlotPool.{
  Handle, Traits, SlotPool, size, is_valid, is_created, emplace_by, destroy_by, destroy,
}
use orteaf.SlotPool.Acquire.{try_acquire_created, try_reserve_uncreated, release_by}
use orteaf.SlotPool.Storage.{set_block_size, reserve, resize, create_range, clear}
use orteaf.SlotPool.Invariant.{
  IsValid, SameSlots, SameSlots-IsValid, emplace_by-SameSlots, destroy_by-SameSlots,
  destroy-SameSlots, release_impl-IsValid, resize-IsValid, create_range-IsValid, clear-IsValid,
}
use orteaf.SlotPool.Scan.{try_acquire-top, try_acquire-empty}

module _ {P R C W : Type 0} (t : Traits P R C W) where
  -- A new pool, with whatever world.
  pub start : W → SlotPool P W
  start w = record {
    payloads = record { items = []; blocks = 0; capacity = 0; block_size = 64 };
    generations = [];
    created = [];
    freelist = [];
    world = w;
  }

  -- One call. A client releases only slots that are not free already.
  pub data Step (p : SlotPool P W) : SlotPool P W → Type 0 where
    acquires : Step p (try_acquire_created t p).1
    reserves_slot : Step p (try_reserve_uncreated t p).1
    releases :
        (h : Handle) (r : R) (c : C) → Absent h.index p.freelist → Step p (release_by t p h r c).1
    emplaces :
        (f : P → R → C → W → Bool × P × W) (h : Handle) (r : R) (c : C)
        → Step p (emplace_by t f p h r c).1
    destroys :
        (f : P → R → C → W → Bool × P × W) (h : Handle) (r : R) (c : C)
        → Step p (destroy_by t f p h r c).1
    resizes : (n : ℕ) → Step p (resize t p n).1
    creates_range : (start end : ℕ) (r : R) (c : C) → Step p (create_range t p start end r c).1
    clears : (r : R) (c : C) → Step p (clear t p r c)
    sets_block_size : (n : ℕ) → Step p (set_block_size t p n).1
    reserves : (n : ℕ) → Step p (reserve t p n).1

  pub data Reach (w : W) : SlotPool P W → Type 0 where
    here : Reach w (start w)
    next : {p q : SlotPool P W} → Reach w p → Step p q → Reach w q

  start-IsValid : (w : W) → IsValid t (start w)
  unfolding start size
  start-IsValid w = record {
    generations_length = refl;
    created_length = refl;
    in_range = tt;
    distinct = tt;
    addressable = omega arith;
  }

  -- A pool with the top of the freelist taken.
  tail-IsValid :
      (p : SlotPool P W) (idx : ℕ) (rest : List ℕ)
      → p.freelist ≡ idx ∷ rest
      → IsValid t p
      → IsValid t (record p { freelist = rest })
  unfolding size
  tail-IsValid p idx rest e v = record {
    generations_length = v.generations_length;
    created_length = v.created_length;
    in_range = (rw e at v.in_range).1;
    distinct = (rw e at v.distinct).1;
    addressable = v.addressable;
  }

  acquire-IsValid :
      (p : SlotPool P W) (free : List ℕ)
      → p.freelist ≡ free
      → IsValid t p
      → IsValid t (try_acquire_created t p).1 × IsValid t (try_reserve_uncreated t p).1
  acquire-IsValid p [] e v = let none = try_acquire-empty t p e in rw (none.0, none.1) (v, v)
  acquire-IsValid p (idx ∷ rest) e v =
      let top = try_acquire-top t p idx rest e in
      let tail = tail-IsValid p idx rest e v in
      rw (top.0, top.1)
        (elim (Bool-cases (get_or p.created idx false)) [
          | inl flag ↦ rw flag (tail, v)
          | inr flag ↦ rw flag (v, tail)
        ])

  release_by-IsValid :
      (p : SlotPool P W) (h : Handle) (r : R) (c : C)
      → Absent h.index p.freelist
      → IsValid t p
      → IsValid t (release_by t p h r c).1
  unfolding release_by
  release_by-IsValid p h r c a v =
      let same = destroy-SameSlots t p h r c in
      let plain = release_impl-IsValid t p h v a in
      let q = (destroy t p h r c).1 in
      let after = SameSlots-IsValid t same v in
      let freed = release_impl-IsValid t q h after (rw same.same_freelist a) in
      elim (Bool-cases (is_valid t p h)) [
        | inr bad ↦ rw bad v
        | inl good ↦ elim (Bool-cases t.destroy_on_release) [
          | inr keeps ↦ simp (good, keeps) plain
          | inl drops ↦ elim (Bool-cases (is_created t p h)) [
            | inr bare ↦ simp (good, drops, bare) v
            | inl made ↦ elim (Bool-cases (destroy t p h r c).0) [
              | inl gone ↦ simp (good, drops, made, gone) freed
              | inr stays ↦ simp (good, drops, made, stays) after
            ]
          ]
        ]
      ]

  set_block_size-SameSlots : (p : SlotPool P W) (n : ℕ) → SameSlots p (set_block_size t p n).1
  unfolding set_block_size size
  set_block_size-SameSlots p n = ground (arith, size-resize_blocks p.payloads n)

  reserve-SameSlots : (p : SlotPool P W) (n : ℕ) → SameSlots p (reserve t p n).1
  unfolding reserve size
  reserve-SameSlots p n = ground (arith, size-reserve p.payloads n)

  Step-IsValid : {p q : SlotPool P W} → Step p q → IsValid t p → IsValid t q
  Step-IsValid {p} acquires v = (acquire-IsValid p p.freelist refl v).0
  Step-IsValid {p} reserves_slot v = (acquire-IsValid p p.freelist refl v).1
  Step-IsValid {p} (releases h r c a) v = release_by-IsValid p h r c a v
  Step-IsValid {p} (emplaces f h r c) v = SameSlots-IsValid t (emplace_by-SameSlots t f p h r c) v
  Step-IsValid {p} (destroys f h r c) v = SameSlots-IsValid t (destroy_by-SameSlots t f p h r c) v
  Step-IsValid {p} (resizes n) v = resize-IsValid t p n v
  Step-IsValid {p} (creates_range a b r c) v = create_range-IsValid t p a b r c v
  Step-IsValid {p} (clears r c) v = (clear-IsValid t p r c).0
  Step-IsValid {p} (sets_block_size n) v = SameSlots-IsValid t (set_block_size-SameSlots p n) v
  Step-IsValid {p} (reserves n) v = SameSlots-IsValid t (reserve-SameSlots p n) v

  -- After any history of calls in which only slots that are not free are released, the generation
  -- and created vectors are as long as the pool, and the freelist holds slots of the pool, each
  -- once; every slot can be addressed by a handle other than the invalid one.
  pub Reach-IsValid : {w : W} {p : SlotPool P W} → Reach w p → IsValid t p
  Reach-IsValid {w} here = start-IsValid w
  Reach-IsValid (next r s) = Step-IsValid s (Reach-IsValid r)
