-- ===== src/PoolManager/Sharing.antt =====
-- Leases of one payload share a control block
-- (orteaf/include/orteaf/internal/base/manager/pool_manager.h).
use orteaf.Prelude.{
  ◌<◌, ◌≡◌, refl, subst, ◌∙◌, Bool, true, false, not, ◌&&◌, some, length, arith, Bool-cases,
  Option-cases, inl, inr, length-set,
}
use orteaf.Diagnostics.{ok, ok_inj, invalid_argument, invalid_state}
use orteaf.SlotPool.{Handle, size, is_valid, is_created, get, invalid_handle}
use orteaf.SlotPool.Invariant.{IsValid}
use orteaf.SlotPool.Lifetime.{is_valid-lt}
use orteaf.ControlBlock.{Block}
use orteaf.PoolManager.{
  Manager, Payloads, ManagerTraits, controls, has_bound, get_bound, bind, unbind,
}
use orteaf.PoolManager.Action.{◌>>◌, continue-ok}
use orteaf.PoolManager.Setup.{ensure_configured}
use orteaf.PoolManager.Acquisition.{
  acquire_control_block, block_at, write_block, count_reference, make_lease, bind_new_block,
  acquire_new, acquire_bound, acquire_lease, is_some, check_payload, lease_of,
}
use orteaf.PoolManager.Blocks.{acquire_control_block-Kept}
use orteaf.PoolManager.Binding.{
  Available, Bound, get-is_some, make_lease-Bound, bind_new_block-Bound, err-ne_ok,
}

module _ {P R C W : Type 0} (t : ManagerTraits P R C W) where
  -- A further lease counts one more reference of the same block.
  acquire_lease-Bound :
      (strong : Bool) (m : Manager P W) (h c : Handle)
      → t.bindable ≡ true
      → Bound t m h c
      → acquire_lease t strong h m ≡ make_lease t strong c m
  unfolding acquire_lease check_payload lease_of acquire_bound ensure_configured
  acquire_lease-Bound strong m h c w b =
      let ready : not m.configured ≡ false = ground (arith, b.available.configured) in
      let both : (t.bindable && has_bound t m.payloads h) ≡ true = ground (arith, w, b.bound) in
      rw
        (
          ready,
          b.available.valid,
          b.available.created,
          b.available.present,
          both,
          b.control,
          get-is_some t m c b.alive b.stored,
        )
        refl

  -- A well-formed pool of control blocks, and a binding for each payload slot.
  pub record IsSound (m : Manager P W) : Type 0 where
    pub blocks : IsValid (controls t) m.control_blocks
    pub bindings : length m.payloads.bound ≡ size m.payloads.pool

  valid-stored :
      (m : Manager P W) (d : Handle)
      → is_valid (controls t) m.control_blocks d ≡ true
      → d.index < length m.control_blocks.payloads.items
  unfolding size
  valid-stored m d v = is_valid-lt (controls t) m.control_blocks d v

  get-is_valid :
      (m : Manager P W) (d : Handle) (block : Block Handle)
      → get (controls t) m.control_blocks d ≡ some block
      → is_valid (controls t) m.control_blocks d ≡ true
  unfolding get
  get-is_valid m d block e = ground arith

  unbind_lem :
      (p : Payloads P W) (h : Handle)
      → ((unbind t p h).pool ≡ p.pool) × (length (unbind t p h).bound ≡ length p.bound)
  unfolding unbind bind
  unbind_lem p h = ground (arith, length-set p.bound h.index (invalid_handle (controls t)))

  acquire_new-Bound :
      (strong : Bool) (m m' : Manager P W) (h c : Handle)
      → t.bindable ≡ true
      → Available t m h
      → IsSound m
      → acquire_new t strong h m ≡ (ok c, m')
      → Bound t m' h c
  unfolding acquire_new
  acquire_new-Bound strong m m' h c w a s e =
      let lease = λ (control : Handle). make_lease t strong control in
      let rest = λ (control : Handle). bind_new_block t h control >> lease control in
      let (d, m1, e1, rest1) = continue-ok (acquire_control_block t m) rest c m' e in
      let (kept, named, valid) = acquire_control_block-Kept t m m1 d s.blocks e1 in
      let (u, m2, e2, rest2) = continue-ok (bind_new_block t h d m1) (λ x. lease d) c m' rest1 in
      let a1 : Available t m1 h = record {
        configured = kept.same_configured ∙ a.configured;
        valid = rw kept.same_payloads a.valid;
        created = rw kept.same_payloads a.created;
        present = rw kept.same_payloads a.present;
      } in
      let stored : d.index < length m1.control_blocks.payloads.items = valid-stored m1 d valid in
      let b2 =
        bind_new_block-Bound t m1 m2 h d u w a1 (rw kept.same_payloads s.bindings) named valid
          stored e2 in
      let leased = make_lease-Bound t strong m2 h d d b2 in
      let same : (make_lease t strong d m2).1 ≡ m' = λ i. (rest2 i).1 in
      let handle : d ≡ c = unfold make_lease in ok_inj d c (λ i. (rest2 i).0) in
      subst (λ k. Bound t m' h k) handle (subst (λ x. Bound t x h d) same leased)

  acquire_bound-Bound :
      (strong : Bool) (m m' : Manager P W) (h c : Handle)
      → t.bindable ≡ true
      → Available t m h
      → IsSound m
      → has_bound t m.payloads h ≡ true
      → acquire_bound t strong h m ≡ (ok c, m')
      → Bound t m' h c
  unfolding acquire_bound
  acquire_bound-Bound strong m m' h c w a s held e =
      let control = get_bound t m.payloads h in
      elim (Option-cases (get (controls t) m.control_blocks control)) [
        | inl gone ↦
            let e' = rw gone at e in
            let m1 = record m { payloads = unbind t m.payloads h } in
            let (pool, long) = unbind_lem m.payloads h in
            acquire_new-Bound strong m1 m' h c w
              (record {
                configured = a.configured;
                valid = rw pool a.valid;
                created = rw pool a.created;
                present = rw pool a.present;
              })
              (record { blocks = s.blocks; bindings = rw pool (long ∙ s.bindings) }) e'
        | inr (block, there) ↦
            let e' = rw there at e in
            let alive = get-is_valid m control block there in
            let before : Bound t m h control = record {
              available = a;
              bound = held;
              control = refl;
              alive = alive;
              stored = valid-stored m control alive;
            } in
            let leased = make_lease-Bound t strong m h control control before in
            let same : (make_lease t strong control m).1 ≡ m' = λ i. (e' i).1 in
            let handle : control ≡ c = unfold make_lease in ok_inj control c (λ i. (e' i).0) in
            subst (λ k. Bound t m' h k) handle (subst (λ x. Bound t x h control) same leased)
      ]

  -- The checks pass for an available payload only, and change nothing.
  check_payload-ok :
      (m m1 : Manager P W) (h : Handle) (u : Unit {0})
      → check_payload t h m ≡ (ok u, m1)
      → (m ≡ m1) × Available t m h
  unfolding check_payload ensure_configured
  check_payload-ok m m1 h u e = elim (Bool-cases (not m.configured)) [
    | inl off ↦ absurd (err-ne_ok invalid_state u (λ i. ((rw off at e) i).0))
    | inr on ↦ elim (Bool-cases (is_valid t.payload m.payloads.pool h)) [
      | inr stale ↦ absurd (err-ne_ok invalid_argument u (λ i. ((rw (on, stale) at e) i).0))
      | inl valid ↦ elim (Bool-cases (is_created t.payload m.payloads.pool h)) [
        | inr bare ↦ absurd (err-ne_ok invalid_state u (λ i. ((rw (on, valid, bare) at e) i).0))
        | inl made ↦ elim (Bool-cases (is_some (get t.payload m.payloads.pool h))) [
          | inr null ↦
              absurd (err-ne_ok invalid_state u (λ i. ((rw (on, valid, made, null) at e) i).0))
          | inl there ↦ (
            λ i. ((rw (on, valid, made, there) at e) i).1,
            record {
              configured = ground (arith, on);
              valid = valid;
              created = made;
              present = there;
            },
          )
        ]
      ]
    ]
  ]

  -- A lease that was acquired names the block that its payload is bound to.
  acquire_lease-binds :
      (strong : Bool) (m m' : Manager P W) (h c : Handle)
      → t.bindable ≡ true
      → IsSound m
      → acquire_lease t strong h m ≡ (ok c, m')
      → Bound t m' h c
  unfolding acquire_lease lease_of
  acquire_lease-binds strong m m' h c w s e =
      let next = λ (x : Unit {0}). lease_of t strong h in
      let (u, m1, e1, rest) = continue-ok (check_payload t h m) next c m' e in
      let (same, a) = check_payload-ok m m1 h u e1 in
      let rest' : lease_of t strong h m ≡ (ok c, m') = rw same rest in
      elim (Bool-cases (has_bound t m.payloads h)) [
        | inl held ↦
            let both : (t.bindable && has_bound t m.payloads h) ≡ true = ground (arith, w, held) in
            acquire_bound-Bound strong m m' h c w a s held (rw both at rest')
        | inr free ↦
            let both : (t.bindable && has_bound t m.payloads h) ≡ false = ground (arith, w, free) in
            acquire_new-Bound strong m m' h c w a s (rw both at rest')
      ]

  -- In a manager whose payload pool binds control blocks, with well-formed pools: after a lease of a
  -- payload was acquired, a second lease of the same payload, strong or weak, is given at once, names
  -- the same control block, and changes nothing but that block's count of such leases.
  pub acquire_lease-acquire_lease :
      (first second : Bool) (m m' : Manager P W) (h c : Handle)
      → t.bindable ≡ true
      → IsSound m
      → acquire_lease t first h m ≡ (ok c, m')
      → acquire_lease t second h m'
        ≡ (ok c, write_block t m' c (count_reference t second (block_at t m' c)))
  acquire_lease-acquire_lease first second m m' h c w s e =
      acquire_lease-Bound second m' h c w (acquire_lease-binds first m m' h c w s e)
      ∙ unfold make_lease in refl
