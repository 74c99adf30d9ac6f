-- ===== src/PoolManager/Shutdown.antt =====
-- What `shutdown` of `PoolManager` (orteaf/include/orteaf/internal/base/manager/pool_manager.h) does while
-- leases are left.
use orteaf.Prelude.{ℕ, ◌≡◌, refl, ◌↔◌, true, false, List, [], ◌∷◌, arith, Bool-cases, inl, inr}
use orteaf.Diagnostics.{invalid_state, ok, err}
use orteaf.SlotPool.{Handle}
use orteaf.SlotPool.Storage.{clear, for_each_created}
use orteaf.ControlBlock.{Block, can_shutdown, can_teardown}
use orteaf.PoolManager.{Manager, ManagerTraits, controls, payload_api, clear_payloads}
use orteaf.PoolManager.Setup.{
  all_blocks, check_can_shutdown, check_can_teardown, shutdown_payload_pool,
  shutdown_control_block_pool, shutdown,
}

-- Every block has no strong reference, or no reference at all.
abbrev pub NoStrong : List (ℕ × Block Handle) → Type 0
NoStrong [] = Unit
NoStrong ((i, b) ∷ blocks) = (b.strong ≡ 0) × NoStrong blocks

abbrev pub NoReference : List (ℕ × Block Handle) → Type 0
NoReference [] = Unit
NoReference ((i, b) ∷ blocks) = ((b.strong ≡ 0) × (b.weak ≡ 0)) × NoReference blocks

module _ {P R C W : Type 0} (t : ManagerTraits P R C W) where
  all_blocks-NoStrong :
      (blocks : List (ℕ × Block Handle))
      → (all_blocks (can_teardown (payload_api t)) blocks ≡ true) ↔ NoStrong blocks
  unfolding all_blocks can_teardown
  all_blocks-NoStrong [] = (λ e. tt, λ n. refl)
  all_blocks-NoStrong ((i, b) ∷ blocks) =
      let rest = all_blocks-NoStrong blocks in
      (λ e. ground (arith, rest), λ n. ground (arith, rest))

  all_blocks-NoReference :
      (blocks : List (ℕ × Block Handle))
      → (all_blocks (can_shutdown (payload_api t)) blocks ≡ true) ↔ NoReference blocks
  unfolding all_blocks can_shutdown
  all_blocks-NoReference [] = (λ e. tt, λ n. refl)
  all_blocks-NoReference ((i, b) ∷ blocks) =
      let rest = all_blocks-NoReference blocks in
      (λ e. ground (arith, rest), λ n. ground (arith, rest))

  NoReference-NoStrong : (blocks : List (ℕ × Block Handle)) → NoReference blocks → NoStrong blocks
  NoReference-NoStrong [] n = tt
  NoReference-NoStrong ((i, b) ∷ blocks) n = (n.0.0, NoReference-NoStrong blocks n.1)

  -- `shutdown` of a configured manager: with a strong reference left it throws and changes nothing;
  -- with only weak ones left it throws after the payload pool is cleared; with none left it clears
  -- both pools, and the manager is not configured any more.
  pub shutdown_lem :
      (request : R) (context : C) (m : Manager P W)
      → m.configured ≡ true
      → let cleared = record m { payloads = clear_payloads t m.payloads request context } in
        let blocks = for_each_created m.control_blocks in
        ((NoStrong blocks → ⊥) → shutdown t request context m ≡ (err invalid_state, m))
        × (NoStrong blocks
            → (NoReference blocks → ⊥)
            → shutdown t request context m ≡ (err invalid_state, cleared))
        × (NoReference blocks
            → shutdown t request context m ≡ (
              ok tt,
              record cleared {
                control_blocks = clear (controls t) m.control_blocks tt tt;
                configured = false;
              },
            ))
  unfolding shutdown shutdown_payload_pool shutdown_control_block_pool check_can_teardown
      check_can_shutdown
  shutdown_lem request context m e =
      let blocks = for_each_created m.control_blocks in
      let teardown = all_blocks (can_teardown (payload_api t)) blocks in
      let over = all_blocks (can_shutdown (payload_api t)) blocks in
      (
        λ held. elim (Bool-cases teardown) [
          | inl e1 ↦ absurd (held ((all_blocks-NoStrong blocks).0 e1))
          | inr e1 ↦ rw (e, e1) refl
        ],
        λ loose held. elim (Bool-cases over) [
          | inl e2 ↦ absurd (held ((all_blocks-NoReference blocks).0 e2))
          | inr e2 ↦ rw (e, (all_blocks-NoStrong blocks).1 loose, e2) refl
        ],
        λ gone.
            rw
              (
                e,
                (all_blocks-NoStrong blocks).1 (NoReference-NoStrong blocks gone),
                (all_blocks-NoReference blocks).1 gone,
              )
              refl,
      )
