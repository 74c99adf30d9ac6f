-- ===== src/PoolManager/Blocks.antt =====
-- What acquiring a control block leaves of a `PoolManager`
-- (orteaf/include/orteaf/internal/base/manager/pool_manager.h).
use orteaf.Prelude.{
  ℕ, ◌+◌, ◌<◌, ◌≡◌, refl, sym, subst, Below, IsDistinct, ◌∙◌, true, false, not, List, [], ◌∷◌, ◌==◌,
  get_or, arith, Bool-cases, inl, inr,
}
use orteaf.Diagnostics.{Result, ok, ok_inj, invalid_state, out_of_range}
use orteaf.SlotPool.{Handle, Traits, SlotPool, size, names_slot, is_valid, make_handle}
use orteaf.SlotPool.Acquire.{try_acquire_created}
use orteaf.SlotPool.Storage.{resize, create_range}
use orteaf.SlotPool.Invariant.{IsValid, resize-IsValid, create_range-IsValid}
use orteaf.SlotPool.Scan.{try_acquire-top, try_acquire-empty}
use orteaf.ControlBlock.{Block}
use orteaf.PoolManager.{Manager, ManagerTraits, controls}
use orteaf.PoolManager.Action.{◌>>=◌, ◌>>◌, return, throw_if, continue-ok, throw_if-ok}
use orteaf.PoolManager.Setup.{on_controls}
use orteaf.PoolManager.Acquisition.{
  try_control_block, retry_control_block, grow_control_block_pool, acquire_control_block,
}

-- A handle that `tryAcquireCreated` returns is valid.
module _ {P R C W : Type 0} (t : Traits P R C W) where
  taken-is_valid :
      (p : SlotPool P W) (idx : ℕ) (rest : List ℕ)
      → idx < size p
      → is_valid t (record p { freelist = rest }) (make_handle t p idx) ≡ true
  unfolding is_valid make_handle size
  taken-is_valid p idx rest h = ground arith

  acquired_lem :
      (p : SlotPool P W) (l : List ℕ)
      → p.freelist ≡ l
      → IsValid t p
      → let (h, q) = try_acquire_created t p in
        IsValid t q × ((names_slot t h ≡ true) → is_valid t q h ≡ true)
  unfolding size
  acquired_lem p [] e v = rw (try_acquire-empty t p e).0 (v, λ n. absurd (ground arith))
  acquired_lem p (idx ∷ rest) e v =
      rw (try_acquire-top t p idx rest e).0 (elim (Bool-cases (get_or p.created idx false)) [
        | inr bare ↦ rw bare (v, λ n. absurd (ground arith))
        | inl made ↦ rw made (
          record {
            generations_length = v.generations_length;
            created_length = v.created_length;
            in_range = (subst (Below (size p)) e v.in_range).1;
            distinct = (subst IsDistinct e v.distinct).1;
            addressable = v.addressable;
          },
          λ n. taken-is_valid p idx rest (subst (Below (size p)) e v.in_range).0,
        )
      ])

module _ {P R C W : Type 0} (t : ManagerTraits P R C W) where
  -- A call that touches the control blocks only, and leaves their pool well-formed.
  pub record Kept (m m' : Manager P W) : Type 0 where
    pub same_payloads : m'.payloads ≡ m.payloads
    pub same_configured : m'.configured ≡ m.configured
    pub valid : IsValid (controls t) m'.control_blocks

  try_control_block-Kept :
      (m m' : Manager P W) (c : Handle)
      → IsValid (controls t) m.control_blocks
      → try_control_block t m ≡ (ok c, m')
      → Kept m m'
        × ((names_slot (controls t) c ≡ true) → is_valid (controls t) m'.control_blocks c ≡ true)
  unfolding try_control_block
  try_control_block-Kept m m' c v e =
      let (valid, named) =
        acquired_lem (controls t) m.control_blocks m.control_blocks.freelist refl v in
      let q = (try_acquire_created (controls t) m.control_blocks).1 in
      let same : m' ≡ record m { control_blocks = q } = λ i. (sym e i).1 in
      let handle : c ≡ (try_acquire_created (controls t) m.control_blocks).0 =
        ok_inj c _ (λ i. (sym e i).0) in
      rw (same, handle)
        (record { same_payloads = refl; same_configured = refl; valid = valid }, named)

  pub Kept-trans : {m1 m2 m3 : Manager P W} → Kept m1 m2 → Kept m2 m3 → Kept m1 m3
  Kept-trans a b = record {
    same_payloads = b.same_payloads ∙ a.same_payloads;
    same_configured = b.same_configured ∙ a.same_configured;
    valid = b.valid;
  }

  -- A call of the control block pool that leaves it well-formed.
  on_controls-Kept :
      {A : Type 0}
      (call : SlotPool (Block Handle) (Unit {0}) → Result A × SlotPool (Block Handle) (Unit {0}))
      (m m' : Manager P W) (a : A)
      → IsValid (controls t) (call m.control_blocks).1
      → on_controls t call m ≡ (ok a, m')
      → Kept m m'
  on_controls-Kept call m m' a v e =
      let same : m' ≡ record m { control_blocks = (call m.control_blocks).1 } = λ i. (sym e i).1 in
      rw same record { same_payloads = refl; same_configured = refl; valid = v }

  grow_control_block_pool-Kept :
      (m m' : Manager P W) (u : Unit {0})
      → IsValid (controls t) m.control_blocks
      → grow_control_block_pool t m ≡ (ok u, m')
      → Kept m m'
  unfolding grow_control_block_pool
  grow_control_block_pool-Kept m m' u v e =
      let desired = size m.control_blocks + m.control_block_growth_chunk_size in
      let grow =
        λ (blocks : SlotPool (Block Handle) (Unit {0})). resize (controls t) blocks desired in
      let create = λ (old : ℕ) (blocks : SlotPool (Block Handle) (Unit {0})).
        create_range (controls t) blocks old (size blocks) tt tt in
      let last = λ (old : ℕ). on_controls t (create old) >> return u in
      let (u1, m1, e1, rest1) =
        continue-ok (throw_if (m.control_block_block_size == 0) invalid_state m)
          (λ u'. on_controls t grow >>= last) u m' e in
      let same1 = (throw_if-ok (m.control_block_block_size == 0) invalid_state m m1 u1 e1).1 in
      let (old, m2, e2, rest2) = continue-ok (on_controls t grow m1) last u m' rest1 in
      let valid1 : IsValid (controls t) m1.control_blocks = rw (← same1) v in
      let kept2 =
        on_controls-Kept grow m1 m2 old
          (resize-IsValid (controls t) m1.control_blocks desired valid1) e2 in
      let (all, m3, e3, rest3) =
        continue-ok (on_controls t (create old) m2) (λ b. return u) u m' rest2 in
      let kept3 =
        on_controls-Kept (create old) m2 m3 all
          (create_range-IsValid (controls t) m2.control_blocks old (size m2.control_blocks) tt tt
            kept2.valid)
          e3 in
      let same3 : m3 ≡ m' = λ i. (rest3 i).1 in rw (same1, ← same3) (Kept-trans kept2 kept3)

  -- A valid handle of the pool.
  abbrev Usable : Handle → Manager P W → Type 0
  Usable c m = (names_slot (controls t) c ≡ true) → is_valid (controls t) m.control_blocks c ≡ true

  retry_control_block-Kept :
      (m m' : Manager P W) (first c : Handle)
      → IsValid (controls t) m.control_blocks
      → Usable first m
      → retry_control_block t first m ≡ (ok c, m')
      → Kept m m' × Usable c m'
  unfolding retry_control_block
  retry_control_block-Kept m m' first c v named e =
      elim (Bool-cases (names_slot (controls t) first)) [
        | inl found ↦
            let e' = rw found at e in
            let same : m ≡ m' = λ i. (e' i).1 in
            let handle : first ≡ c = ok_inj first c (λ i. (e' i).0) in
            rw (← same, ← handle)
              (record { same_payloads = refl; same_configured = refl; valid = v }, named)
        | inr missing ↦
            let (u, m1, e1, rest) =
              continue-ok (grow_control_block_pool t m) (λ u'. try_control_block t) c m'
                (rw missing at e) in
            let grown = grow_control_block_pool-Kept m m1 u v e1 in
            let (kept, usable) = try_control_block-Kept m1 m' c grown.valid rest in
            (Kept-trans grown kept, usable)
      ]

  pub acquire_control_block-Kept :
      (m m' : Manager P W) (c : Handle)
      → IsValid (controls t) m.control_blocks
      → acquire_control_block t m ≡ (ok c, m')
      → Kept m m'
        × (names_slot (controls t) c ≡ true)
        × (is_valid (controls t) m'.control_blocks c ≡ true)
  unfolding acquire_control_block
  acquire_control_block-Kept m m' c v e =
      let check =
        λ (h : Handle). throw_if (not (names_slot (controls t) h)) out_of_range >> return h in
      let last = λ (first : Handle). retry_control_block t first >>= check in
      let (first, m1, e1, rest1) = continue-ok (try_control_block t m) last c m' e in
      let (kept1, usable1) = try_control_block-Kept m m1 first v e1 in
      let (h, m2, e2, rest2) = continue-ok (retry_control_block t first m1) check c m' rest1 in
      let (kept2, usable2) = retry_control_block-Kept m1 m2 first h kept1.valid usable1 e2 in
      let (u, m3, e3, rest3) =
        continue-ok (throw_if (not (names_slot (controls t) h)) out_of_range m2) (λ u'. return h) c
          m' rest2 in
      let (named, same2) = throw_if-ok (not (names_slot (controls t) h)) out_of_range m2 m3 u e3 in
      let same3 : m2 ≡ m' = same2 ∙ (λ i. (rest3 i).1) in
      let handle : h ≡ c = ok_inj h c (λ i. (rest3 i).0) in
      let good : names_slot (controls t) h ≡ true = ground (arith, named) in
      rw (← same3, ← handle) (Kept-trans kept1 kept2, good, usable2 good)
