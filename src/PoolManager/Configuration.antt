-- ===== src/PoolManager/Configuration.antt =====
-- What `configureImpl` of `PoolManager`
-- (orteaf/include/orteaf/internal/base/manager/pool_manager.h) makes of a payload block size of 0.
use orteaf.Prelude.{◌≡◌, ◌≢◌, refl, true, false, not, ◌&&◌, ◌==◌, arith, Bool-cases, inl, inr}
use orteaf.Diagnostics.{invalid_argument, ok, err}
use orteaf.PoolManager.{Manager, ManagerTraits}
use orteaf.PoolManager.Setup.{Capacities, validate_parameters, configure, set_payload_block_size}

module _ {P R C W : Type 0} (t : ManagerTraits P R C W) where
  -- `configureImpl` refuses every payload block size of 0 as an invalid argument and changes nothing.
  -- Where no payloads are asked for and the other sizes are positive, its own validation has let
  -- the 0 pass.
  pub configure-payload_block_size :
      (c : Capacities) (request : R) (context : C) (m : Manager P W)
      → c.payload_block_size ≡ 0
      → (configure t c request context m ≡ (err invalid_argument, m))
        × (c.payload_capacity ≡ 0
            → c.control_block_block_size ≢ 0
            → c.control_block_growth_chunk_size ≢ 0
            → c.payload_growth_chunk_size ≢ 0
            → validate_parameters c m ≡ (ok tt, m))
  unfolding configure validate_parameters set_payload_block_size
  configure-payload_block_size c request context m e =
      let zero_block : (c.payload_block_size == 0) ≡ true = ground (arith, e) in
      let stays : (m.configured
            && (not (m.payload_block_size == c.payload_block_size)
                && not (c.payload_block_size == 0)))
          ≡ false =
        ground (arith, zero_block) in
      let wanted = not (c.payload_capacity == 0) && c.payload_block_size == 0 in
      (
        elim (Bool-cases (c.control_block_block_size == 0)) [
          | inl a ↦ rw a refl
          | inr a ↦ elim (Bool-cases (c.control_block_growth_chunk_size == 0)) [
            | inl b ↦ rw (a, b) refl
            | inr b ↦ elim (Bool-cases (c.payload_growth_chunk_size == 0)) [
              | inl d ↦ rw (a, b, d) refl
              | inr d ↦ elim (Bool-cases wanted) [
                | inl f ↦ rw (a, b, d, f) refl
                | inr f ↦ rw (a, b, d, f, stays, zero_block) refl
              ]
            ]
          ]
        ],
        λ none_wanted p q r. ground arith,
      )
