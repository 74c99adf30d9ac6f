-- ===== src/LeaseRegistry/Queue.antt =====
-- `FifoLeaseLifetimeRegistry`
-- (orteaf/include/orteaf/internal/base/manager/fifo_lease_lifetime_registry.h) as a queue: what each call
-- takes from its front.
use orteaf.Prelude.{
  ℕ, zero, suc, ◌+◌, ◌-◌, ◌≤◌, ◌<◌, ◌≡◌, ◌⊎◌, inl, inr, refl, sym, ◌∙◌, leb, ltb, ◌==◌,
  if◌then◌else◌, Option, none, List, ◌++◌, length, get_or, set, drop, replicate, arith, Bool-cases,
  length-set, length-append, length-drop, get_or-set_self, get_or-set_ne, get_or-drop, get_or-ext,
  drop_all, get_or-append_left, get_or-append_right, get_or-replicate, length-replicate,
}
use orteaf.Diagnostics.{Errc, Result, ok, err, Result-cases}
use orteaf.LeaseRegistry.{Leases, payload, release_lease}
use orteaf.LeaseRegistry.Fifo.{
  Fifo, ready, scan_ready, validated, release_range, finish_release, release_ready,
}
use orteaf.LeaseRegistry.Compaction.{queue, IsValid, compact_lem}

module _ {W : Type 0} (hooks : Leases W) where
  pub scan_ready-bounds :
      (leases : List (Option ℕ)) (head i : ℕ) (w : W)
      → let e = (scan_ready hooks leases head i w).0 in (e ≡ 0) ⊎ ((head < e) × (e ≤ i))
  unfolding scan_ready
  scan_ready-bounds leases head zero w = inl refl
  scan_ready-bounds leases head (suc i) w =
      let (done, w') = ready hooks (payload hooks (get_or leases i none) w) w in
      ground (arith, scan_ready-bounds leases head i w')

  -- The first `n` of the leases from `i` on are released, and no other changes.
  abbrev Cleared : ℕ → ℕ → List (Option ℕ) → List (Option ℕ) → Type 0
  Cleared i n old new =
      (length new ≡ length old)
      × ((j : ℕ)
          → get_or new j none ≡ (
              if leb i j
              then if ltb j (i + n) then none else get_or old j none
              else get_or old j none))

  release_range-Cleared :
      (rounds i : ℕ) (leases : List (Option ℕ)) (w : W)
      → i + rounds ≤ length leases
      → let (result, new, w') = release_range hooks rounds i leases w in
        (n : ℕ) × (n ≤ rounds)
        × Cleared i n leases new
        × ((result ≡ ok tt) → n ≡ rounds)
        × ((c : Errc) → result ≡ err c → n < rounds)
  unfolding release_range
  release_range-Cleared zero i leases w h =
      (0, omega arith, (refl, λ j. ground arith), λ e. refl, λ c e. absurd (ground arith))
  release_range-Cleared (suc rounds) i leases w h =
      let lease = get_or leases i none in
      let (checked, w1) = validated hooks (payload hooks lease w) w in
      let w2 = release_lease hooks lease w1 in
      elim (Result-cases checked) [
        | inr (c, e) ↦ rw e (
          0,
          omega arith,
          (refl, λ j. ground arith),
          λ f. absurd (ground arith),
          λ d f. omega arith,
        )
        | inl (u, e) ↦
            let same = length-set leases i none in
            let (n, below, kept, all, some_left) =
              release_range-Cleared rounds (suc i) (set leases i none) w2 (omega (arith, same)) in
            rw e (
              suc n,
              omega arith,
              (
                kept.0 ∙ same,
                λ j. ground (
                  arith,
                  kept.1 j,
                  get_or-set_self leases i none none,
                  get_or-set_ne leases i j none none,
                ),
              ),
              λ f. omega (arith, all f),
              λ c f. omega (arith, some_left c f),
            )
      ]

  -- What a call of `releaseReady` that returned, or threw, leaves of the queue.
  abbrev pub Dequeued : List (Option ℕ) → Result ℕ × Fifo × W → Type 0
  Dequeued before (ok n, r, w) = (n ≤ length before) × (queue r ≡ drop n before)
  Dequeued before (err c, r, w) =
      (n : ℕ) × (n < length before) × (queue r ≡ replicate n none ++ drop n before)

  -- What releasing `n` leases from the head on leaves of the queue.
  Cleared-queue :
      (r : Fifo) (n : ℕ) (new : List (Option ℕ))
      → n ≤ length r.leases - r.head
      → r.head ≤ length r.leases
      → Cleared r.head n r.leases new
      → drop r.head new ≡ replicate n none ++ drop n (drop r.head r.leases)
  Cleared-queue r n new h inside c =
      get_or-ext (drop r.head new) (replicate n none ++ drop n (drop r.head r.leases)) none
        (omega (
          arith,
          length-drop r.head new,
          length-append (replicate n none) (drop n (drop r.head r.leases)),
          length-replicate {A = Option ℕ} n none,
          length-drop n (drop r.head r.leases),
          length-drop r.head r.leases,
          c.0,
        ))
        (λ j lt. ground (
          arith,
          get_or-drop r.head new j none,
          c.1 (r.head + j),
          get_or-append_left (replicate n none) (drop n (drop r.head r.leases)) j none,
          get_or-append_right (replicate n none) (drop n (drop r.head r.leases)) j none,
          get_or-replicate {A = Option ℕ} n none j,
          length-replicate {A = Option ℕ} n none,
          get_or-drop n (drop r.head r.leases) (j - n) none,
          get_or-drop r.head r.leases (n + (j - n)) none,
        ))

  pub range_released-IsValid :
      (r : Fifo) (e : ℕ) (w : W)
      → IsValid r
      → r.head < e
      → e ≤ length r.leases
      → let (result, new, w') = release_range hooks (e - r.head) r.head r.leases w in
        result ≡ ok tt → IsValid (record { leases = new; head = e })
  range_released-IsValid r e w v lo hi f =
      let (n, below, cleared, all, some_left) =
        release_range-Cleared (e - r.head) r.head r.leases w (omega arith) in
      let whole : n ≡ e - r.head = all f in
      record {
        inside = omega (arith, cleared.0);
        spent = λ j lt. ground (arith, cleared.1 j, v.spent j);
      }

  -- The release of the leases up to `e`.
  finish_release_lem :
      (r : Fifo) (e : ℕ) (w : W)
      → IsValid r
      → r.head < e
      → e ≤ length r.leases
      → let outcome =
          finish_release hooks r e (release_range hooks (e - r.head) r.head r.leases w) in
        IsValid outcome.1 × Dequeued (queue r) outcome
  unfolding queue
  finish_release_lem r e w v lo hi =
      let rounds = e - r.head in
      let (result, new, w') = release_range hooks rounds r.head r.leases w in
      let (n, below, cleared, all, some_left) =
        release_range-Cleared rounds r.head r.leases w (omega arith) in
      let left = Cleared-queue r n new (omega arith) v.inside cleared in
      let sized = length-drop r.head r.leases in
      elim (Result-cases result) [
        | inl (u, f) ↦
            let whole : n ≡ rounds = all f in
            let r1 : Fifo = record { leases = new; head = e } in
            let v1 : IsValid r1 = range_released-IsValid r e w v lo hi f in
            let (valid, world, same) = compact_lem hooks r1 w' v1 in
            let cut : drop e new ≡ drop rounds (drop r.head r.leases) =
              get_or-ext (drop e new) (drop rounds (drop r.head r.leases)) none
                (omega (
                  arith,
                  length-drop e new,
                  sized,
                  length-drop rounds (drop r.head r.leases),
                  cleared.0,
                ))
                (λ j lt. ground (
                  arith,
                  cleared.1 (e + j),
                  get_or-drop e new j none,
                  get_or-drop rounds (drop r.head r.leases) j none,
                  get_or-drop r.head r.leases (rounds + j) none,
                )) in
            rw f (valid, (omega (arith, sized), unfold queue in same ∙ cut))
        | inr (c, f) ↦ rw f (
          record {
            inside = omega (arith, cleared.0);
            spent = λ j lt. ground (arith, cleared.1 j, v.spent j);
          },
          (n, omega (arith, some_left c f, sized), left),
        )
      ]

  -- `releaseReady` on a registry whose leases before the head are released takes leases from the
  -- front of the queue, as many as it returns, in whatever order they became ready, and leaves the
  -- others in order; a compaction loses none. Where a validation throws, the leases before the one
  -- that it is about are left in the queue, released.
  pub release_ready_lem :
      (r : Fifo) (w : W)
      → IsValid r
      → let outcome = release_ready hooks r w in IsValid outcome.1 × Dequeued (queue r) outcome
  unfolding release_ready queue
  release_ready_lem r w v = elim (Bool-cases (leb (length r.leases) r.head)) [
    | inl over ↦ rw over (
      record { inside = omega arith; spent = λ i lt. refl },
      (omega arith, sym (drop_all r.head r.leases (ground arith))),
    )
    | inr some_left ↦
        let (e, w') = scan_ready hooks r.leases r.head (length r.leases) w in
        elim (Bool-cases (e == 0)) [
          | inl nothing ↦ rw (some_left, nothing) (v, (omega arith, refl))
          | inr something ↦
              let bounds = scan_ready-bounds r.leases r.head (length r.leases) w in
              rw (some_left, something)
                (finish_release_lem r e w' v (ground (arith, bounds)) (ground (arith, bounds)))
        ]
  ]
