-- ===== src/PoolManager/Release.antt =====
-- The end of a payload's last lease (orteaf/include/orteaf/internal/base/lease/strong_lease.h, and
-- pool_manager.h beside the manager).
use orteaf.Prelude.{
  ◌<◌, ◌≡◌, refl, sym, ap, ◌∷◌, subst, ◌∙◌, Bool, true, false, not, none, some, if◌then◌else◌,
  arith, length-set, get_or-set_self,
}
use orteaf.Diagnostics.{err, invalid_argument}
use orteaf.SlotPool.{Handle, size, names_slot, is_valid}
use orteaf.SlotPool.Invariant.{IsValid}
use orteaf.SlotPool.Lifetime.{release-released, released-stale, is_valid-lt}
use orteaf.ControlBlock.{Block, release_strong, can_shutdown, clear_payload}
use orteaf.ControlBlock.Counting.{release_last}
use orteaf.PoolManager.{
  Manager, Payloads, ManagerTraits, control_traits, controls, payload_api, release_payload, unbind,
  bind,
}
use orteaf.PoolManager.Setup.{ensure_configured}
use orteaf.PoolManager.Acquisition.{
  block_at, write_block, release_control_block, acquire_lease, check_payload,
}
use orteaf.PoolManager.Leases.{release_strong_lease}
use orteaf.PoolManager.Binding.{Available, write_block-frame}

module _ {P R C W : Type 0} (t : ManagerTraits P R C W) where
  -- The payload pool's slots have generations, and are not destroyed when they are released.
  pub record Recycles : Type 0 where
    pub kept : t.payload.destroy_on_release ≡ false
    pub numbered : t.payload.has_generation ≡ true
    pub several : 1 < t.payload.generation_count

  -- The only lease of a payload is a strong one, of the block `c`.
  pub record OnlyLease (m : Manager P W) (h c : Handle) : Type 0 where
    pub strong : (block_at t m c).strong ≡ 1
    pub weak : (block_at t m c).weak ≡ 0
    pub handle : (block_at t m c).handle ≡ h
    pub pooled : (block_at t m c).has_pool ≡ true
    pub control : is_valid (controls t) m.control_blocks c ≡ true
    pub counted : c.generation < 256

  unbind_if-pool :
      (b : Bool) (p : Payloads P W) (h : Handle) → (if b then unbind t p h else p).pool ≡ p.pool
  unfolding unbind bind
  unbind_if-pool b p h = ground arith

  release_payload-stale :
      (p : Payloads P W) (h : Handle)
      → Recycles
      → IsValid t.payload p.pool
      → is_valid t.payload p.pool h ≡ true
      → h.generation < t.payload.generation_count
      → let (done, q) = release_payload t p h in
        (done ≡ true)
        × (is_valid t.payload q.pool h ≡ false)
        × (q.pool.freelist ≡ h.index ∷ p.pool.freelist)
  unfolding release_payload
  release_payload-stale p h r v e g =
      let gone = release-released t.payload p.pool h r.kept r.numbered e in
      let stale = released-stale t.payload p.pool h v r.numbered r.several g e in
      rw (unbind_if-pool t.bindable p h, gone) (refl, stale, refl)

  -- A lease of a stale handle is refused, and nothing changes.
  acquire_lease-stale :
      (strong : Bool) (m : Manager P W) (h : Handle)
      → m.configured ≡ true
      → is_valid t.payload m.payloads.pool h ≡ false
      → acquire_lease t strong h m ≡ (err invalid_argument, m)
  unfolding acquire_lease check_payload ensure_configured
  acquire_lease-stale strong m h c e =
      let ready : not m.configured ≡ false = ground (arith, c) in rw (ready, e) refl

  block_at-write_block :
      (m : Manager P W) (c : Handle) (block : Block Handle)
      → is_valid (controls t) m.control_blocks c ≡ true
      → block_at t (write_block t m c block) c ≡ block
  unfolding block_at write_block size
  block_at-write_block m c block e =
      get_or-set_self m.control_blocks.payloads.items c.index block (controls t).fresh
        (is_valid-lt (controls t) m.control_blocks c e)

  write_block-IsValid :
      (m : Manager P W) (c : Handle) (block : Block Handle)
      → IsValid (controls t) m.control_blocks
      → IsValid (controls t) (write_block t m c block).control_blocks
  unfolding write_block size
  write_block-IsValid m c block v =
      let long = length-set m.control_blocks.payloads.items c.index block in
      record {
        generations_length = v.generations_length ∙ sym long;
        created_length = v.created_length ∙ sym long;
        in_range = rw long v.in_range;
        distinct = v.distinct;
        addressable = rw long v.addressable;
      }

  -- The block's slot goes back to its pool, with the block in it.
  release_control_block-stale :
      (m : Manager P W) (c : Handle)
      → IsValid (controls t) m.control_blocks
      → is_valid (controls t) m.control_blocks c ≡ true
      → c.generation < 256
      → let m' = release_control_block t m c in
        (is_valid (controls t) m'.control_blocks c ≡ false)
        × (block_at t m' c ≡ block_at t m c)
        × (m'.control_blocks.freelist ≡ c.index ∷ m.control_blocks.freelist)
        × (m'.payloads ≡ m.payloads)
        × (m'.configured ≡ m.configured)
  unfolding release_control_block block_at
  release_control_block-stale m c v e g =
      let gone =
        release-released (controls t) m.control_blocks c (unfold control_traits in refl)
          (unfold control_traits in refl) e in
      let stale =
        released-stale (controls t) m.control_blocks c v (unfold control_traits in refl)
          (unfold control_traits in omega arith) (unfold control_traits in g) e in
      rw gone (stale, refl, refl, refl, refl)

  -- What the release of the only lease leaves.
  module _ (m : Manager P W) (h c : Handle) (o : OnlyLease m h c) where
    abbrev ended : Block Handle
    ended = clear_payload (payload_api t) (record (block_at t m c) { strong = 0 })

    abbrev unbound : Manager P W
    unbound = write_block t (record m { payloads = (release_payload t m.payloads h).1 }) c ended

    release_strong_lease-last :
        names_slot t.payload h ≡ true
        → (release_payload t m.payloads h).0 ≡ true
        → release_strong_lease t (some c) m ≡ (none, release_control_block t unbound c)
    unfolding release_strong_lease
    release_strong_lease-last n d =
        let b = block_at t m c in
        let last =
          release_last (payload_api t) b m.payloads o.strong
            (subst (λ k. names_slot t.payload k ≡ true) (sym o.handle) n) o.pooled
            (subst (λ k. (release_payload t m.payloads k).0 ≡ true) (sym o.handle) d) in
        let last' =
          subst
            (λ k.
              release_strong (payload_api t) b m.payloads
              ≡ (true, ended, (release_payload t m.payloads k).1))
            o.handle last in
        let at =
          block_at-write_block (record m { payloads = (release_payload t m.payloads h).1 }) c ended
            o.control in
        let idle : can_shutdown (payload_api t) ended ≡ true =
          unfold can_shutdown in ground (arith, o.weak) in
        rw (last', at, idle) refl

  -- The last lease of a payload, a strong one of its block, is released, where the payload slots
  -- have at least two generations and are not destroyed on release, both pools are well-formed, and
  -- the generations of the two handles are in range. The payload's slot and the block's slot go back
  -- to their pools, on top of the freelists: both handles are stale, the block is unbound, and asking
  -- for another lease of the payload is refused without a change.
  pub release_strong_lease-acquire_lease :
      (m : Manager P W) (h c : Handle) (again : Bool)
      → Recycles
      → IsValid t.payload m.payloads.pool
      → IsValid (controls t) m.control_blocks
      → Available t m h
      → OnlyLease m h c
      → h.generation < t.payload.generation_count
      → let (lease, m') = release_strong_lease t (some c) m in
        (lease ≡ none)
        × (is_valid t.payload m'.payloads.pool h ≡ false)
        × (is_valid (controls t) m'.control_blocks c ≡ false)
        × ((block_at t m' c).payload ≡ none)
        × (m'.payloads.pool.freelist ≡ h.index ∷ m.payloads.pool.freelist)
        × (m'.control_blocks.freelist ≡ c.index ∷ m.control_blocks.freelist)
        × (acquire_lease t again h m' ≡ (err invalid_argument, m'))
  release_strong_lease-acquire_lease m h c again r v w a o g =
      let (done, stale, pushed) = release_payload-stale m.payloads h r v a.valid g in
      let named : names_slot t.payload h ≡ true =
        ground (arith, is_valid-lt t.payload m.payloads.pool h a.valid, v.addressable) in
      let m1 = unbound m h c o in
      let freed = record m { payloads = (release_payload t m.payloads h).1 } in
      let block = ended m h c o in
      let valid1 = write_block-IsValid freed c block w in
      let there = (write_block-frame t freed c c block).0 ∙ o.control in
      let (gone, kept, freed_block, same, on) =
        release_control_block-stale m1 c valid1 there o.counted in
      let payloads : (release_control_block t m1 c).payloads ≡ (release_payload t m.payloads h).1 =
        same ∙ unfold write_block in refl in
      let configured : (release_control_block t m1 c).configured ≡ true =
        on ∙ (unfold write_block in a.configured) in
      let refused : is_valid t.payload (release_control_block t m1 c).payloads.pool h ≡ false =
        rw payloads stale in
      let empty : (block_at t (release_control_block t m1 c) c).payload ≡ none =
        rw (kept, block_at-write_block freed c block o.control) refl in
      rw (release_strong_lease-last m h c o named done) (
        refl,
        refused,
        gone,
        empty,
        ap (λ q. q.pool.freelist) payloads ∙ pushed,
        freed_block ∙ (unfold write_block in refl),
        acquire_lease-stale again (release_control_block t m1 c) h configured refused,
      )
