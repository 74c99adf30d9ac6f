-- ===== src/SlotPool/Clear.antt =====
-- What `clear` does to the payloads, and what it forgets.
use orteaf.Prelude.{
  ℕ, zero, suc, ◌+◌, ◌-◌, ◌<◌, ◌≤◌, ◌≡◌, refl, ap, ◌∙◌, Bool, true, false, List, [], ◌∷◌,
  if◌then◌else◌, length, get_or, set, drop, arith, Bool-cases, inl, inr, length-set, drop-cons,
  drop-set, replicate,
}
use orteaf.SlotPool.{
  Handle, Traits, SlotPool, size, is_valid, is_created, make_handle, set_created, destroy,
  destroy_hook, write_payload,
}
use orteaf.SlotPool.Storage.{destroy_slots, clear, created_from, for_each_created, resize}
use orteaf.SlotPool.Invariant.{IsValid, resize_grows, clear-IsValid}
use orteaf.SlotPool.Lifetime.{destroy_by-finished, is_valid-write_payload}

drop_all {ℓ} : {A : Type ℓ} (n : ℕ) (xs : List A) → length xs ≤ n → drop n xs ≡ []
drop_all zero [] h = refl
drop_all zero (x ∷ xs) h = absurd (omega arith)
drop_all (suc n) [] h = refl
drop_all (suc n) (x ∷ xs) h = drop_all n xs (omega arith)

get_or-replicate : (n i : ℕ) → get_or {A = ℕ} (replicate n 0) i 0 ≡ 0
get_or-replicate zero i = refl
get_or-replicate (suc n) zero = refl
get_or-replicate (suc n) (suc i) = get_or-replicate n i

module _ {P R C W : Type 0} (t : Traits P R C W) (r : R) (c : C) where
  -- `Traits::destroy` run over payloads in order, for its effect on the world.
  pub destroy_all : List (ℕ × P) → W → W
  destroy_all [] w = w
  destroy_all ((i, x) ∷ xs) w = destroy_all xs (t.destroy x r c w).1

  make_handle-is_valid :
      (p : SlotPool P W) (i : ℕ) → i < size p → is_valid t p (make_handle t p i) ≡ true
  unfolding is_valid make_handle
  make_handle-is_valid p i h = ground arith

  -- The pool after the payload in slot `i` was destroyed.
  abbrev destroyed : SlotPool P W → ℕ → SlotPool P W
  destroyed p i =
      let (x, w) = t.destroy (get_or p.payloads.items i t.fresh) r c p.world in
      record (write_payload t p i x w) { created = set p.created i false }

  destroy-destroyed :
      (p : SlotPool P W) (i : ℕ)
      → i < size p
      → get_or p.created i false ≡ true
      → (destroy t p (make_handle t p i) r c).1 ≡ destroyed p i
  unfolding destroy set_created is_created make_handle
  destroy-destroyed p i h e =
      let v = make_handle-is_valid p i h in
      let (x, w) = t.destroy (get_or p.payloads.items i t.fresh) r c p.world in
      rw (destroy_by-finished t (destroy_hook t) p (make_handle t p i) r c v (rw v e))
        (rw (is_valid-write_payload t p i x w (make_handle t p i), v) refl)

  destroy_slots-made :
      (n i : ℕ) (p : SlotPool P W)
      → i < size p
      → get_or p.created i false ≡ true
      → destroy_slots t (suc n) i r c p ≡ destroy_slots t n (i + 1) r c (destroyed p i)
  unfolding destroy_slots
  destroy_slots-made n i p h e =
      ap (destroy_slots t n (i + 1) r c) (rw e (destroy-destroyed p i h e))

  destroy_slots-bare :
      (n i : ℕ) (p : SlotPool P W)
      → get_or p.created i false ≡ false
      → destroy_slots t (suc n) i r c p ≡ destroy_slots t n (i + 1) r c p
  unfolding destroy_slots
  destroy_slots-bare n i p e = ap (destroy_slots t n (i + 1) r c) (rw e)

  -- The visits from slot `i` on begin with that slot, if it is created.
  created_from-drop :
      (i : ℕ) (flags : List Bool) (xs : List P)
      → i < length flags
      → i < length xs
      → created_from (drop i flags) (drop i xs) i ≡ (
          let rest = created_from (drop (i + 1) flags) (drop (i + 1) xs) (i + 1) in
          if get_or flags i false then (i, get_or xs i t.fresh) ∷ rest else rest)
  unfolding created_from
  created_from-drop i flags xs h k = rw (drop-cons i flags false h, drop-cons i xs t.fresh k) refl

  abbrev payload : SlotPool P W → ℕ → P
  payload p i = (t.destroy (get_or p.payloads.items i t.fresh) r c p.world).0

  rest :
      (p : SlotPool P W) (i : ℕ)
      → let q = destroyed p i in
        destroy_all
          (created_from (drop (i + 1) q.created) (drop (i + 1) q.payloads.items) (i + 1))
          q.world
        ≡ destroy_all
            ((i, get_or p.payloads.items i t.fresh)
              ∷ created_from (drop (i + 1) p.created) (drop (i + 1) p.payloads.items) (i + 1))
            p.world
  unfolding destroy_all
  rest p i = rw (drop-set i p.created false, drop-set i p.payloads.items (payload p i)) refl

  destroy_slots-world :
      (rounds i : ℕ) (p : SlotPool P W)
      → i + rounds ≡ size p
      → length p.created ≡ size p
      → (destroy_slots t rounds i r c p).world
        ≡ destroy_all (created_from (drop i p.created) (drop i p.payloads.items) i) p.world
  unfolding size
  destroy_slots-world zero i p e l =
      unfold destroy_slots created_from destroy_all in
      rw (drop_all i p.created (omega (arith, e, l))) refl
  destroy_slots-world (suc rounds) i p e l =
      rw (created_from-drop i p.created p.payloads.items (omega arith) (omega arith))
        (elim (Bool-cases (get_or p.created i false)) [
          | inl made ↦
              rw (destroy_slots-made rounds i p (omega arith) made, made)
                (destroy_slots-world rounds (i + 1) (destroyed p i)
                    (omega (arith, length-set p.payloads.items i (payload p i)))
                    (omega (
                      arith,
                      length-set p.payloads.items i (payload p i),
                      length-set p.created i false,
                    ))
                  ∙ rest p i)
          | inr bare ↦
              rw (destroy_slots-bare rounds i p bare, bare)
                (destroy_slots-world rounds (i + 1) p (omega arith) l)
        ])

  -- In a well-formed pool, `clear` runs `Traits::destroy` exactly on the payloads that
  -- `forEachCreated` visits, in that order, and leaves no slot and nothing free.
  pub clear-world :
      (p : SlotPool P W)
      → IsValid t p
      → let q = clear t p r c in
        (q.world ≡ destroy_all (for_each_created p) p.world) × (size q ≡ 0) × (q.freelist ≡ [])
  unfolding clear for_each_created
  clear-world p v = (
    destroy_slots-world (size p) 0 p (omega arith) v.created_length,
    (clear-IsValid t p r c).1,
    (clear-IsValid t p r c).2,
  )

  no_generations : (p : SlotPool P W) → (clear t p r c).generations ≡ []
  unfolding clear
  no_generations p = refl

  -- `clear` forgets the generations too: when the pool has grown again to `n` slots, each handle of
  -- generation 0 below `n` is valid, also one that was released before.
  pub clear-resize-is_valid :
      (p : SlotPool P W) (n : ℕ) (h : Handle)
      → n ≤ t.invalid_index
      → h.index < n
      → h.generation ≡ 0
      → is_valid t (resize t (clear t p r c) n).1 h ≡ true
  clear-resize-is_valid p n h hi lt g =
      let q = clear t p r c in
      let v = clear-IsValid t p r c in
      let e = resize_grows t q n v.0 (omega (arith, v.1)) hi in
      let gens = get_or-replicate (n - 0) h.index in
      unfold is_valid in ground (arith, e.0, e.1, v.1, no_generations p, gens, g)
