-- ===== src/PoolManager/Binding.antt =====
-- Payloads and the control blocks that they are bound to
-- (orteaf/include/orteaf/internal/base/pool/with_control_block_binding.h, and
-- orteaf/include/orteaf/internal/base/manager/pool_manager.h).
use orteaf.Prelude.{
  ℕ, zero, suc, ◌<◌, ◌≡◌, refl, sym, subst, ◌∙◌, Bool, true, some, List, [], ◌∷◌, if◌then◌else◌,
  length, get_elem?, arith, Bool-cases, inl, inr, length-set, get_or-set_self,
}
use orteaf.Diagnostics.{Errc, ok, err, invalid_state}
use orteaf.SlotPool.{Handle, size, names_slot, is_valid, is_created, get, invalid_handle}
use orteaf.SlotPool.Lifetime.{is_valid-lt}
use orteaf.ControlBlock.{Block, try_bind_payload}
use orteaf.PoolManager.{
  Manager, Payloads, ManagerTraits, controls, payload_api, has_bound, get_bound, bind,
}
use orteaf.PoolManager.Acquisition.{
  block_at, write_block, count_reference, make_lease, bind_new_block, is_some,
}

inside-is_some :
    {A : Type 0} (xs : List A) (i : ℕ) → i < length xs → is_some (get_elem? xs i) ≡ true
inside-is_some [] i h = absurd (omega arith)
inside-is_some (x ∷ xs) zero h = refl
inside-is_some (x ∷ xs) (suc i) h = inside-is_some xs i (omega arith)

pub err-ne_ok : {A : Type 0} (c : Errc) (a : A) → err c ≡ ok a → ⊥
err-ne_ok c a e = ground arith

if_true : {A : Type 0} (b : Bool) (x y : A) → b ≡ true → (if b then x else y) ≡ x
if_true b x y e = rw e refl

module _ {P R C W : Type 0} (t : ManagerTraits P R C W) where
  -- A payload that leases can be taken of.
  pub record Available (m : Manager P W) (h : Handle) : Type 0 where
    pub configured : m.configured ≡ true
    pub valid : is_valid t.payload m.payloads.pool h ≡ true
    pub created : is_created t.payload m.payloads.pool h ≡ true
    pub present : is_some (get t.payload m.payloads.pool h) ≡ true

  -- The payload is bound to the control block, which is there.
  pub record Bound (m : Manager P W) (h c : Handle) : Type 0 where
    pub available : Available m h
    pub bound : has_bound t m.payloads h ≡ true
    pub control : get_bound t m.payloads h ≡ c
    pub alive : is_valid (controls t) m.control_blocks c ≡ true
    pub stored : c.index < length m.control_blocks.payloads.items

  pub get-is_some :
      (m : Manager P W) (c : Handle)
      → is_valid (controls t) m.control_blocks c ≡ true
      → c.index < length m.control_blocks.payloads.items
      → is_some (get (controls t) m.control_blocks c) ≡ true
  unfolding get
  get-is_some m c e h = rw e (inside-is_some m.control_blocks.payloads.items c.index h)

  pub write_block-frame :
      (m : Manager P W) (d c : Handle) (block : Block Handle)
      → (is_valid (controls t) (write_block t m d block).control_blocks c
          ≡ is_valid (controls t) m.control_blocks c)
        × (length (write_block t m d block).control_blocks.payloads.items
            ≡ length m.control_blocks.payloads.items)
  unfolding write_block is_valid
  write_block-frame m d c block =
      let same = length-set m.control_blocks.payloads.items d.index block in (rw same refl, same)

  -- Counting a reference leaves the binding as it is.
  pub make_lease-Bound :
      (strong : Bool) (m : Manager P W) (h c d : Handle)
      → Bound m h c
      → Bound (make_lease t strong d m).1 h c
  unfolding make_lease write_block
  make_lease-Bound strong m h c d b =
      let block = count_reference t strong (block_at t m d) in
      let (valid, long) = write_block-frame m d c block in
      record {
        available = record {
          configured = b.available.configured;
          valid = b.available.valid;
          created = b.available.created;
          present = b.available.present;
        };
        bound = b.bound;
        control = b.control;
        alive = unfold write_block in valid ∙ b.alive;
        stored = unfold write_block in omega (arith, long, b.stored);
      }

  -- `bindControlBlock` of a valid payload, with a binding for each slot.
  pub bind_lem :
      (p : Payloads P W) (h c : Handle)
      → is_valid t.payload p.pool h ≡ true
      → length p.bound ≡ size p.pool
      → names_slot (controls t) c ≡ true
      → let q = bind t p h c in (q.pool ≡ p.pool) × (has_bound t q h ≡ true) × (get_bound t q h ≡ c)
  unfolding bind has_bound get_bound
  bind_lem p h c v l n =
      let inside : h.index < length p.bound = omega (arith, is_valid-lt t.payload p.pool h v, l) in
      let read = get_or-set_self p.bound h.index c (invalid_handle (controls t)) inside in
      let long = length-set p.bound h.index c in ground (arith, v, n, read, long)

  -- What a binding call that returned leaves.
  pub bind_new_block-Bound :
      (m m' : Manager P W) (h c : Handle) (u : Unit {0})
      → t.bindable ≡ true
      → Available m h
      → length m.payloads.bound ≡ size m.payloads.pool
      → names_slot (controls t) c ≡ true
      → is_valid (controls t) m.control_blocks c ≡ true
      → c.index < length m.control_blocks.payloads.items
      → bind_new_block t h c m ≡ (ok u, m')
      → Bound m' h c
  unfolding bind_new_block
  bind_new_block-Bound m m' h c u w a l n v i e =
      let (taken, block) =
        try_bind_payload (payload_api t) (block_at t m c) h (some h.index) true in
      elim (Bool-cases taken) [
        | inr refused ↦
            let e' = rw refused at e in absurd (err-ne_ok invalid_state u (λ i. (e' i).0))
        | inl accepted ↦
            let e' = rw accepted at e in
            let written = write_block t m c block in
            let m2 = record written { payloads = bind t m.payloads h c } in
            let same : m2 ≡ m' = sym (if_true t.bindable m2 written w) ∙ (λ i. (e' i).1) in
            let (pool, bound, control) = bind_lem m.payloads h c a.valid l n in
            let (valid, long) = write_block-frame m c c block in
            subst (λ x. Bound x h c) same
              record {
                available = record {
                  configured = unfold write_block in a.configured;
                  valid = rw pool a.valid;
                  created = rw pool a.created;
                  present = rw pool a.present;
                };
                bound = bound;
                control = control;
                alive = valid ∙ v;
                stored = omega (arith, long, i);
              }
      ]
