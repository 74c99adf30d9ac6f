-- ===== src/LeaseRegistry/Compaction.antt =====
-- The queue that `FifoLeaseLifetimeRegistry`
-- (orteaf/include/orteaf/internal/base/manager/fifo_lease_lifetime_registry.h)
-- stands for, and that compaction keeps it.
use orteaf.Prelude.{
  ℕ, zero, suc, ◌+◌, ◌-◌, ◌/◌, ◌≤◌, ◌<◌, ◌≡◌, inl, inr, refl, sym, ◌∙◌, leb, ltb, ◌==◌, Option,
  none, List, length, get_or, set, take, drop, arith, Bool-cases, ==→eq, length-set, length-drop,
  length-take, get_or-set_self, get_or-set_ne, get_or-drop, get_or-take, get_or-ext, drop_all,
}
use orteaf.LeaseRegistry.{Leases}
use orteaf.LeaseRegistry.Fifo.{Fifo, move_down, compact_if_needed}

unfoldable pub queue : Fifo → List (Option ℕ)
queue r = drop r.head r.leases

-- The leases before the head are released.
pub record IsValid (r : Fifo) : Type 0 where
  pub inside : r.head ≤ length r.leases
  pub spent : (i : ℕ) → i < r.head → get_or r.leases i none ≡ none

module _ {W : Type 0} (hooks : Leases W) where
  -- Compaction moves the queue to the front of the vector and releases nothing.
  move_down_lem :
      (rounds head i : ℕ) (leases : List (Option ℕ)) (w : W)
      → 0 < head
      → head + (i + rounds) ≤ length leases
      → ((j : ℕ) → i ≤ j → j < head + i → get_or leases j none ≡ none)
      → let (new, w') = move_down hooks rounds head i leases w in
        (w' ≡ w)
        × (length new ≡ length leases)
        × ((j : ℕ) → j < i → get_or new j none ≡ get_or leases j none)
        × ((j : ℕ) → i ≤ j → j < i + rounds → get_or new j none ≡ get_or leases (head + j) none)
  unfolding move_down
  move_down_lem zero head i leases w p h gap =
      (refl, refl, λ j lt. refl, λ j le lt. absurd (omega arith))
  move_down_lem (suc rounds) head i leases w p h gap =
      let moved = get_or leases (head + i) none in
      let first = set leases i moved in
      let second = set first (head + i) none in
      let same : length second ≡ length leases =
        length-set first (head + i) none ∙ length-set leases i moved in
      let empty : get_or leases i none ≡ none = gap i (omega arith) (omega arith) in
      let gap' : (j : ℕ) → suc i ≤ j → j < head + suc i → get_or second j none ≡ none = λ j le lt.
        ground (
          arith,
          gap j,
          get_or-set_self first (head + i) none none,
          get_or-set_ne first (head + i) j none none,
          get_or-set_ne leases i j moved none,
          length-set leases i moved,
        ) in
      let (world, long, before, after) =
        move_down_lem rounds head (suc i) second w p (omega (arith, same)) gap' in
      let here : get_or second i none ≡ moved =
        get_or-set_ne first (head + i) i none none (omega arith)
        ∙ get_or-set_self leases i moved none (omega arith) in
      let beyond : (j : ℕ) → i < j → get_or second (head + j) none ≡ get_or leases (head + j) none =
        λ j lt.
          get_or-set_ne first (head + i) (head + j) none none (omega arith)
          ∙ get_or-set_ne leases i (head + j) moved none (omega arith) in
      rw (empty, move_down)
        (
          world,
          long ∙ same,
          λ j lt. ground (
            arith,
            before j,
            get_or-set_ne first (head + i) j none none,
            get_or-set_ne leases i j moved none,
          ),
          λ j le lt. elim (Bool-cases (j == i)) [
            | inl at ↦ ground (arith, before i, here, ==→eq j i at)
            | inr later ↦ after j (ground arith) (omega arith) ∙ beyond j (ground arith)
          ],
        )

  pub compact_lem :
      (r : Fifo) (w : W)
      → IsValid r
      → let (r', w') = compact_if_needed hooks r w in IsValid r' × (w' ≡ w) × (queue r' ≡ queue r)
  unfolding compact_if_needed queue
  compact_lem r w v = elim (Bool-cases (r.head == 0)) [
    | inl front ↦ rw front (v, refl, refl)
    | inr later ↦ elim (Bool-cases (leb (length r.leases) r.head)) [
      | inl over ↦
          rw (later, over)
            (
              record { inside = omega arith; spent = λ i lt. refl },
              refl,
              sym (drop_all r.head r.leases (ground arith)),
            )
      | inr some_left ↦ elim (Bool-cases (ltb r.head (length r.leases / 2))) [
        | inl early ↦ rw (later, some_left, early) (v, refl, refl)
        | inr due ↦
            let n = length r.leases - r.head in
            let (world, long, before, after) =
              move_down_lem n r.head 0 r.leases w (ground arith) (omega (arith, v.inside))
                (λ j le lt. v.spent j (omega arith)) in
            let new = (move_down hooks n r.head 0 r.leases w).0 in
            let sized : length (take n new) ≡ n = length-take n new (omega arith) in
            rw (later, some_left, due)
              (
                record { inside = omega arith; spent = λ i lt. absurd (omega arith) },
                world,
                get_or-ext (take n new) (drop r.head r.leases) none
                    (sized ∙ sym (length-drop r.head r.leases))
                    (λ j lt.
                      let small : j < n = omega (arith, sized) in
                      get_or-take n new j none small
                      ∙ after j (omega arith) (omega arith)
                      ∙ sym (get_or-drop r.head r.leases j none)),
              )
      ]
    ]
  ]
