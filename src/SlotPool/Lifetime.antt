-- ===== src/SlotPool/Lifetime.antt =====
-- Creating, destroying and releasing the payload of one slot.
use orteaf.Prelude.{
  ℕ, zero, suc, ◌+◌, ◌%◌, ◌<◌, ◌≡◌, refl, Bool, true, false, not, List, [], ◌∷◌, some, none,
  if◌then◌else◌, length, get_or, get_elem?, set, arith, length-set, get_or-set_self, ◌≢◌, ◌∙◌, sym,
}
use native.Mathlib.Nat.{mod-eq_of_lt, mod_self}
use native.Mathlib.Decide.{dec_lt}
use orteaf.SlotPool.{
  Handle, Traits, SlotPool, size, is_valid, is_created, make_handle, get, set_created, emplace_by,
  destroy_by, write_payload,
}
use orteaf.SlotPool.Acquire.{release_impl, release, try_acquire_created, try_reserve_uncreated}
use orteaf.SlotPool.Invariant.{IsValid}
use orteaf.SlotPool.Scan.{try_acquire-top}

if_self : (b : Bool) → (if b then true else false) ≡ b
if_self b = ground arith

if_not : (b : Bool) → (if b then false else true) ≡ not b
if_not b = ground arith

module _ {P R C W : Type 0} (t : Traits P R C W) where
  pub is_valid-lt : (p : SlotPool P W) (h : Handle) → is_valid t p h ≡ true → h.index < size p
  unfolding is_valid
  is_valid-lt p h e = ground arith

  pub is_valid-write_payload :
      (p : SlotPool P W) (i : ℕ) (x : P) (w : W) (h : Handle)
      → is_valid t (write_payload t p i x w) h ≡ is_valid t p h
  unfolding is_valid
  is_valid-write_payload p i x w h = rw (length-set p.payloads.items i x)

  is_valid-set_created :
      (p : SlotPool P W) (g h : Handle) (b : Bool)
      → is_valid t (set_created t p g b) h ≡ is_valid t p h
  unfolding is_valid set_created
  is_valid-set_created p g h b = ground arith

  -- The flag that is set is read back, and the payload stays.
  set_created_lem :
      (p : SlotPool P W) (h : Handle) (b : Bool)
      → length p.created ≡ size p
      → is_valid t p h ≡ true
      → (is_created t (set_created t p h b) h ≡ b)
        × (get t (set_created t p h b) h ≡ get_elem? p.payloads.items h.index)
        × ((set_created t p h b).world ≡ p.world)
  unfolding is_created set_created get
  set_created_lem p h b l e = ground (
    arith,
    is_valid-set_created p h h b,
    is_valid-lt p h e,
    get_or-set_self p.created h.index b false,
  )

  get_elem?-set_self :
      (xs : List P) (i : ℕ) (x : P) → i < length xs → get_elem? (set xs i x) i ≡ some x
  get_elem?-set_self [] i x h = absurd (omega arith)
  get_elem?-set_self (y ∷ xs) zero x h = refl
  get_elem?-set_self (y ∷ xs) (suc i) x h = get_elem?-set_self xs i x (omega arith)

  -- What a hook that reported `done` leaves of a slot, with the flag then set to `b`.
  abbrev pub finished : SlotPool P W → Handle → P → W → Bool → Bool → SlotPool P W
  finished p h x w done b =
      if done
      then set_created t (write_payload t p h.index x w) h b
      else write_payload t p h.index x w

  finished_lem :
      (p : SlotPool P W) (h : Handle) (x : P) (w : W) (done b : Bool)
      → IsValid t p
      → is_valid t p h ≡ true
      → is_created t p h ≡ not b
      → let q = finished p h x w done b in
        (is_valid t q h ≡ true)
        × (is_created t q h ≡ (if done then b else not b))
        × (get t q h ≡ some x)
        × (q.world ≡ w)
  unfolding size
  finished_lem p h x w true b v e f =
      let q0 = write_payload t p h.index x w in
      let valid = is_valid-write_payload p h.index x w h ∙ e in
      let s =
        set_created_lem q0 h b (v.created_length ∙ sym (length-set p.payloads.items h.index x))
          valid in
      (
        is_valid-set_created q0 h h b ∙ valid,
        s.0,
        s.1 ∙ get_elem?-set_self p.payloads.items h.index x (is_valid-lt p h e),
        s.2,
      )
  finished_lem p h x w false b v e f =
      unfold is_created get in
      (
        is_valid-write_payload p h.index x w h ∙ e,
        rw (is_valid-write_payload p h.index x w h) f,
        rw (is_valid-write_payload p h.index x w h, e)
            (get_elem?-set_self p.payloads.items h.index x (is_valid-lt p h e)),
        refl,
      )

  emplace_by-finished :
      (f : P → R → C → W → Bool × P × W) (p : SlotPool P W) (h : Handle) (r : R) (c : C)
      → is_valid t p h ≡ true
      → is_created t p h ≡ false
      → let (made, x, w) = f (get_or p.payloads.items h.index t.fresh) r c p.world in
        emplace_by t f p h r c ≡ (made, finished p h x w made true)
  unfolding emplace_by
  emplace_by-finished f p h r c e u = rw (e, u)

  pub destroy_by-finished :
      (f : P → R → C → W → Bool × P × W) (p : SlotPool P W) (h : Handle) (r : R) (c : C)
      → is_valid t p h ≡ true
      → is_created t p h ≡ true
      → let (done, x, w) = f (get_or p.payloads.items h.index t.fresh) r c p.world in
        destroy_by t f p h r c ≡ (done, finished p h x w done false)
  unfolding destroy_by
  destroy_by-finished f p h r c e u = rw (e, u)

  -- In a well-formed pool, on a valid handle of an uncreated slot, `emplace` with a factory runs
  -- it on the slot's payload and reports its result. The handle stays valid, the slot counts as
  -- created exactly if the factory succeeded, the handle gives the payload that the factory
  -- left, and the world is the one that it left.
  pub emplace_by_lem :
      (f : P → R → C → W → Bool × P × W) (p : SlotPool P W) (h : Handle) (r : R) (c : C)
      → IsValid t p
      → is_valid t p h ≡ true
      → is_created t p h ≡ false
      → let (made, x, w) = f (get_or p.payloads.items h.index t.fresh) r c p.world in
        let (done, q) = emplace_by t f p h r c in
        (done ≡ made)
        × (is_valid t q h ≡ true)
        × (is_created t q h ≡ made)
        × (get t q h ≡ some x)
        × (q.world ≡ w)
  emplace_by_lem f p h r c v e u =
      let (made, x, w) = f (get_or p.payloads.items h.index t.fresh) r c p.world in
      let l = finished_lem p h x w made true v e u in
      rw (emplace_by-finished f p h r c e u) (refl, l.0, l.1 ∙ if_self made, l.2, l.3)

  -- In a well-formed pool, on a valid handle of a created slot, `destroy` with a caller's
  -- function runs it on the slot's payload and reports its result. The handle stays valid, the
  -- slot counts as uncreated exactly if the function reported success, and payload and world are
  -- those that it left.
  pub destroy_by_lem :
      (f : P → R → C → W → Bool × P × W) (p : SlotPool P W) (h : Handle) (r : R) (c : C)
      → IsValid t p
      → is_valid t p h ≡ true
      → is_created t p h ≡ true
      → let (gone, x, w) = f (get_or p.payloads.items h.index t.fresh) r c p.world in
        let (done, q) = destroy_by t f p h r c in
        (done ≡ gone)
        × (is_valid t q h ≡ true)
        × (is_created t q h ≡ not gone)
        × (get t q h ≡ some x)
        × (q.world ≡ w)
  destroy_by_lem f p h r c v e u =
      let (gone, x, w) = f (get_or p.payloads.items h.index t.fresh) r c p.world in
      let l = finished_lem p h x w gone false v e u in
      rw (destroy_by-finished f p h r c e u) (refl, l.0, l.1 ∙ if_not gone, l.2, l.3)

  -- The slot's next generation.
  abbrev pub next_generation : SlotPool P W → ℕ → ℕ
  next_generation p i = (get_or p.generations i 0 + 1) % t.generation_count

  next-ne : (g n : ℕ) → g < n → 1 < n → (g + 1) % n ≢ g
  next-ne g n h k = elim (dec_lt (g + 1) n) [
    | yes lt ↦ rw (mod-eq_of_lt lt) (omega arith)
    | no ge ↦ let e : g + 1 ≡ n = omega arith in rw (e, mod_self n) (omega arith)
  ]

  -- The pool after a slot with generations was released.
  abbrev pub released : SlotPool P W → Handle → SlotPool P W
  released p h = record p {
    generations = set p.generations h.index (next_generation p h.index);
    freelist = h.index ∷ p.freelist;
  }

  pub release-released :
      (p : SlotPool P W) (h : Handle)
      → t.destroy_on_release ≡ false
      → t.has_generation ≡ true
      → is_valid t p h ≡ true
      → release t p h ≡ (true, released p h)
  unfolding release release_impl
  release-released p h d g e = ground arith

  release-invalid :
      (p : SlotPool P W) (h : Handle)
      → t.destroy_on_release ≡ false
      → is_valid t p h ≡ false
      → release t p h ≡ (false, p)
  unfolding release release_impl
  release-invalid p h d e = ground arith

  generation_lem :
      (p : SlotPool P W) (h : Handle)
      → t.has_generation ≡ true
      → is_valid t p h ≡ true
      → h.generation ≡ get_or p.generations h.index 0
  unfolding is_valid
  generation_lem p h g e = ground arith

  pub released-stale :
      (p : SlotPool P W) (h : Handle)
      → IsValid t p
      → t.has_generation ≡ true
      → 1 < t.generation_count
      → h.generation < t.generation_count
      → is_valid t p h ≡ true
      → is_valid t (released p h) h ≡ false
  released-stale p h v g n b e =
      let now = generation_lem p h g e in
      let set_now =
        get_or-set_self p.generations h.index (next_generation p h.index) 0
          (omega (arith, is_valid-lt p h e)) in
      let ne = next-ne (get_or p.generations h.index 0) t.generation_count (omega (arith, now)) n in
      unfold is_valid in ground (arith, set_now, ne, now)

  released-handle :
      (p : SlotPool P W) (h : Handle)
      → IsValid t p
      → t.has_generation ≡ true
      → is_valid t p h ≡ true
      → make_handle t (released p h) h.index
        ≡ record { index = h.index; generation = next_generation p h.index }
  unfolding make_handle
  released-handle p h v g e = ground (
    arith,
    g,
    get_or-set_self p.generations h.index (next_generation p h.index) 0
        (omega (arith, is_valid-lt p h e)),
  )

  -- In a well-formed pool without `destroy_on_release`, releasing a valid handle succeeds. The
  -- handle is then stale: a second release fails and `get` gives nothing. The next acquisition
  -- in the slot's state, created or not, hands out the same slot under the next generation, and
  -- the freelist is as before. Handles need at least two generations, and the slot's one must be
  -- in range.
  pub release-acquire :
      (p : SlotPool P W) (h : Handle)
      → IsValid t p
      → t.destroy_on_release ≡ false
      → t.has_generation ≡ true
      → 1 < t.generation_count
      → h.generation < t.generation_count
      → is_valid t p h ≡ true
      → let q = (release t p h).1 in
        ((release t p h).0 ≡ true)
        × (release t q h ≡ (false, q))
        × (get t q h ≡ none)
        × ((if get_or p.created h.index false
              then try_acquire_created t q
              else try_reserve_uncreated t q)
            ≡ (
              record { index = h.index; generation = next_generation p h.index },
              record q { freelist = p.freelist },
            ))
  release-acquire p h v d g n b e =
      let stale = released-stale p h v g n b e in
      let top = try_acquire-top t (released p h) h.index p.freelist refl in
      let made = released-handle p h v g e in
      rw (release-released p h d g e) (
        refl,
        release-invalid (released p h) h d stale,
        unfold get in rw stale,
        ground (arith, top, made),
      )
