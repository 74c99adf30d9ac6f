-- ===== src/LeaseRegistry/Readiness.antt =====
-- Which leases `FifoLeaseLifetimeRegistry`
-- (orteaf/include/orteaf/internal/base/manager/fifo_lease_lifetime_registry.h) takes
-- and leaves.
use orteaf.Prelude.{
  [], ◌∷◌, ap, ◌∙◌, take, drop, set, length-set, drop-cons, drop-set, ℕ, zero, suc, ◌+◌, ◌-◌, ◌≤◌,
  ◌<◌, ◌≡◌, ◌⊎◌, inl, inr, refl, sym, subst, true, false, leb, ◌==◌, Option, none, some, List,
  length, get_or, arith, Bool-cases, ==→eq, length-drop, get_or-drop,
}
use orteaf.Diagnostics.{Result, ok, err, ok_inj, Result-cases}
use orteaf.LeaseRegistry.{Leases, payload, release_lease}
use orteaf.LeaseRegistry.Fifo.{
  Fifo, ready, scan_ready, validated, release_range, finish_release, release_ready,
}
use orteaf.LeaseRegistry.Compaction.{queue, IsValid, compact_lem}
use orteaf.LeaseRegistry.Queue.{scan_ready-bounds, range_released-IsValid}

module _ {W : Type 0} (hooks : Leases W) where
  -- Each lease in turn has its payload validated and is released.
  pub release_each : List (Option ℕ) → W → W
  release_each [] w = w
  release_each (lease ∷ leases) w =
      release_each leases (release_lease hooks lease (validated hooks (payload hooks lease w) w).1)

  release_range-world :
      (rounds i : ℕ) (leases : List (Option ℕ)) (w : W)
      → i + rounds ≤ length leases
      → (release_range hooks rounds i leases w).0 ≡ ok tt
      → (release_range hooks rounds i leases w).2 ≡ release_each (take rounds (drop i leases)) w
  unfolding release_range release_each
  release_range-world zero i leases w h f = refl
  release_range-world (suc rounds) i leases w h f =
      let lease = get_or leases i none in
      let next : suc i ≡ i + 1 = omega arith in
      let cut : drop (suc i) (set leases i none) ≡ drop (i + 1) leases =
        ap (λ k. drop k (set leases i none)) next ∙ drop-set i leases none in
      let (checked, w1) = validated hooks (payload hooks lease w) w in
      elim (Result-cases checked) [
        | inr (c, e) ↦ absurd (ground (arith, rw e at f))
        | inl (u, e) ↦
            rw (drop-cons i leases none (omega arith), e)
              (release_range-world rounds (suc i) (set leases i none) (release_lease hooks lease w1)
                  (omega (arith, length-set leases i none)) (rw e at f)
                ∙ ap (λ rest. release_each (take rounds rest) (release_lease hooks lease w1)) cut)
      ]

  -- A release that returned leaves the world that releasing its leases one by one leaves.
  finish_release-world :
      (r : Fifo) (e n : ℕ) (w : W)
      → IsValid r
      → r.head < e
      → e ≤ length r.leases
      → let outcome =
          finish_release hooks r e (release_range hooks (e - r.head) r.head r.leases w) in
        outcome.0 ≡ ok n → outcome.2 ≡ release_each (take (e - r.head) (queue r)) w
  unfolding queue
  finish_release-world r e n w v lo hi h =
      let (result, new, w') = release_range hooks (e - r.head) r.head r.leases w in
      elim (Result-cases result) [
        | inr (c, f) ↦ absurd (ground (arith, rw f at h))
        | inl (u, f) ↦
            let r1 : Fifo = record { leases = new; head = e } in
            let (valid, world, same) =
              compact_lem hooks r1 w' (range_released-IsValid hooks r e w v lo hi f) in
            rw f (world ∙ release_range-world (e - r.head) r.head r.leases w (omega arith) f)
      ]

  -- Where readiness can be asked for without changing anything.
  module _ (quiet : (p : ℕ) (w : W) → (hooks.is_ready p w).1 ≡ w) where
    ready-quiet : (o : Option ℕ) (w : W) → (ready hooks o w).1 ≡ w
    ready-quiet none w = refl
    ready-quiet (some p) w = quiet p w

    -- The scan stops behind the last lease that is ready.
    scan_ready-last :
        (leases : List (Option ℕ)) (head i : ℕ) (w : W)
        → let e = (scan_ready hooks leases head i w).0 in
          ((j : ℕ)
            → head ≤ j
            → j < i
            → e ≤ j
            → (ready hooks (payload hooks (get_or leases j none) w) w).0 ≡ false)
          × ((0 < e) → (ready hooks (payload hooks (get_or leases (e - 1) none) w) w).0 ≡ true)
    unfolding scan_ready
    scan_ready-last leases head zero w =
        (λ j a b c. absurd (omega arith), λ h. absurd (omega arith))
    scan_ready-last leases head (suc i) w = elim (Bool-cases (leb (suc i) head)) [
      | inl stop ↦ rw stop (λ j a b c. absurd (ground arith), λ h. absurd (omega arith))
      | inr go ↦
          let o = payload hooks (get_or leases i none) w in
          elim (Bool-cases ((ready hooks o w).0)) [
            | inl yes_ready ↦
                let at : i ≡ suc i - 1 = omega arith in
                rw (go, yes_ready)
                  (
                    λ j a b c. absurd (omega arith),
                    λ h.
                        subst
                          (λ k. (ready hooks (payload hooks (get_or leases k none) w) w).0 ≡ true)
                          at yes_ready,
                  )
            | inr not_ready ↦
                let (behind, last) = scan_ready-last leases head i w in
                rw (go, not_ready, ready-quiet o w)
                  (
                    λ j a b c. elim (Bool-cases (j == i)) [
                      | inl at ↦ rw (==→eq j i at) not_ready
                      | inr below ↦ behind j a (ground arith) c
                    ],
                    last,
                  )
          ]
    ]

    finish_release-count :
        (r : Fifo) (e n : ℕ) (done : Result (Unit {0}) × List (Option ℕ) × W)
        → (finish_release hooks r e done).0 ≡ ok n
        → n ≡ e - r.head
    finish_release-count r e n (ok u, leases, w) h = ok_inj n (e - r.head) (sym h)
    finish_release-count r e n (err c, leases, w) h = absurd (ground arith)

    -- What the scan says of the queue, for the count that is returned.
    scan_ready-queue :
        (r : Fifo) (w : W) (n e : ℕ)
        → (scan_ready hooks r.leases r.head (length r.leases) w).0 ≡ e
        → (n ≡ e - r.head)
        → ((e ≡ 0) ⊎ (r.head < e))
        → ((j : ℕ)
            → n ≤ j
            → j < length (queue r)
            → (ready hooks (payload hooks (get_or (queue r) j none) w) w).0 ≡ false)
          × ((0 < n) → (ready hooks (payload hooks (get_or (queue r) (n - 1) none) w) w).0 ≡ true)
    unfolding queue
    scan_ready-queue r w n e f m bound =
        let (behind, last) = scan_ready-last r.leases r.head (length r.leases) w in
        let sized = length-drop r.head r.leases in
        (
          λ j a b.
              rw (get_or-drop r.head r.leases j none)
                (behind (r.head + j) (omega arith) (omega (arith, sized)) (ground (arith, bound))),
          λ p. rw (get_or-drop r.head r.leases (n - 1) none) (
              subst (λ k. (ready hooks (payload hooks (get_or r.leases k none) w) w).0 ≡ true)
                (ground (arith, bound)) (last (omega arith))),
        )

    scan_ready-quiet :
        (leases : List (Option ℕ)) (head i : ℕ) (w : W) → (scan_ready hooks leases head i w).1 ≡ w
    unfolding scan_ready
    scan_ready-quiet leases head zero w = refl
    scan_ready-quiet leases head (suc i) w =
        let o = payload hooks (get_or leases i none) w in
        ground (arith, ready-quiet o w, scan_ready-quiet leases head i w)

    -- Where asking a payload whether it is ready changes nothing, and the leases before the head are
    -- released: a call of `releaseReady` that returns a number has validated and released so many
    -- leases from the front of the queue, one by one, and changed nothing else outside the registry.
    -- The last of them was ready, and no lease behind them was. A lease without a payload counts as
    -- ready.
    pub release_ready-ready :
        (r : Fifo) (w : W) (n : ℕ)
        → IsValid r
        → (release_ready hooks r w).0 ≡ ok n
        → ((j : ℕ)
            → n ≤ j
            → j < length (queue r)
            → (ready hooks (payload hooks (get_or (queue r) j none) w) w).0 ≡ false)
          × ((0 < n) → (ready hooks (payload hooks (get_or (queue r) (n - 1) none) w) w).0 ≡ true)
          × ((release_ready hooks r w).2 ≡ release_each (take n (queue r)) w)
    unfolding release_ready queue
    release_ready-ready r w n v h = elim (Bool-cases (leb (length r.leases) r.head)) [
      | inl over ↦
          let zero_taken : n ≡ 0 = ok_inj n 0 (sym (rw over at h)) in
          (
            λ j a b. absurd (ground (arith, length-drop r.head r.leases)),
            λ p. absurd (omega arith),
            rw (over, zero_taken) (unfold release_each in refl),
          )
      | inr some_left ↦
          let (e, w') = scan_ready hooks r.leases r.head (length r.leases) w in
          let same : w' ≡ w = scan_ready-quiet r.leases r.head (length r.leases) w in
          elim (Bool-cases (e == 0)) [
            | inl nothing ↦
                let zero_taken : n ≡ 0 = ok_inj n 0 (sym (rw (some_left, nothing) at h)) in
                let none_found : e ≡ 0 = ==→eq e 0 nothing in
                let (behind, last) = scan_ready-queue r w n e refl (omega arith) (inl none_found) in
                (
                  behind,
                  last,
                  rw (some_left, nothing, zero_taken) (same ∙ unfold release_each in refl),
                )
            | inr something ↦
                let bounds = scan_ready-bounds hooks r.leases r.head (length r.leases) w in
                let h' = rw (some_left, something) at h in
                let range = release_range hooks (e - r.head) r.head r.leases w' in
                let count = finish_release-count r e n range h' in
                let (behind, last) =
                  scan_ready-queue r w n e refl count (inr (ground (arith, bounds))) in
                (
                  behind,
                  last,
                  rw (some_left, something, count)
                      (finish_release-world r e n w' v (ground (arith, bounds))
                          (ground (arith, bounds)) h'
                        ∙ ap (release_each (take (e - r.head) (drop r.head r.leases))) same),
                )
          ]
    ]
