-- ===== src/LeaseRegistry/Fifo.antt =====
-- `FifoLeaseLifetimeRegistry` of
-- orteaf/include/orteaf/internal/base/manager/fifo_lease_lifetime_registry.h. A call that throws leaves
-- the registry and the world as they are at the throw.
use orteaf.Prelude.{
  ℕ, zero, suc, ◌+◌, ◌-◌, ◌/◌, Bool, true, false, leb, ltb, ◌==◌, if◌then◌else◌, Option, none, some,
  List, [], ◌∷◌, ◌++◌, length, get_or, set, take,
}
use orteaf.Diagnostics.{Result, ok, err, invalid_state}
use orteaf.LeaseRegistry.{Leases, holds, payload, release_lease}

pub record Fifo : Type 0 where
  pub leases : List (Option ℕ)
  pub head : ℕ

abbrev pub no_leases : Fifo
no_leases = record { leases = []; head = 0 }

unfoldable pub push : Fifo → Option ℕ → Fifo
push r lease = if holds lease then record r { leases = r.leases ++ lease ∷ [] } else r

unfoldable pub size : Fifo → ℕ
size r = if leb (length r.leases) r.head then 0 else length r.leases - r.head

unfoldable pub empty : Fifo → Bool
unfolding size
empty r = size r == 0

module _ {W : Type 0} (hooks : Leases W) where
  -- A payload that is not there counts as ready.
  abbrev pub ready : Option ℕ → W → Bool × W
  ready none world = (true, world)
  ready (some p) world = hooks.is_ready p world

  -- The scan from the back: `i` slots are left to look at.
  unfoldable pub scan_ready : List (Option ℕ) → ℕ → ℕ → W → ℕ × W
  scan_ready leases head zero world = (0, world)
  scan_ready leases head (suc i) world =
      if leb (suc i) head
      then (0, world)
      else let (done, world') = ready (payload hooks (get_or leases i none) world) world in
        let rest = scan_ready leases head i world' in if done then (suc i, world') else rest

  abbrev pub validated : Option ℕ → W → Result (Unit {0}) × W
  validated none world = (ok tt, world)
  validated (some p) world = hooks.validate p world

  abbrev pub unless_thrown :
      Result (Unit {0})
      → Result (Unit {0}) × List (Option ℕ) × W
      → List (Option ℕ)
      → W
      → Result (Unit {0}) × List (Option ℕ) × W
  unless_thrown (ok u) rest leases world = rest
  unless_thrown (err code) rest leases world = (err code, leases, world)

  -- `rounds` leases from `i` on are validated and released.
  unfoldable pub release_range :
      ℕ → ℕ → List (Option ℕ) → W → Result (Unit {0}) × List (Option ℕ) × W
  release_range zero i leases world = (ok tt, leases, world)
  release_range (suc rounds) i leases world =
      let lease = get_or leases i none in
      let (checked, world') = validated (payload hooks lease world) world in
      let rest =
        release_range rounds (suc i) (set leases i none) (release_lease hooks lease world') in
      unless_thrown checked rest leases world'

  -- `leases_[i] = std::move(leases_[head_ + i])`: the target is released, the source is left empty.
  unfoldable pub move_down : ℕ → ℕ → ℕ → List (Option ℕ) → W → List (Option ℕ) × W
  move_down zero head i leases world = (leases, world)
  move_down (suc rounds) head i leases world =
      let moved = get_or leases (head + i) none in
      move_down rounds head (suc i) (set (set leases i moved) (head + i) none)
        (release_lease hooks (get_or leases i none) world)

  unfoldable pub compact_if_needed : Fifo → W → Fifo × W
  unfolding move_down
  compact_if_needed r world =
      if r.head == 0
      then (r, world)
      else if leb (length r.leases) r.head
      then (no_leases, world)
      else if ltb r.head (length r.leases / 2)
      then (r, world)
      else let new_size = length r.leases - r.head in
        let (moved, world') = move_down new_size r.head 0 r.leases world in
        (record { leases = take new_size moved; head = 0 }, world')

  -- The end of `releaseReady`, after the range is released or a validation threw.
  abbrev pub finish_release :
      Fifo → ℕ → Result (Unit {0}) × List (Option ℕ) × W → Result ℕ × Fifo × W
  finish_release r ready_end (ok u, leases, world) =
      let (r', world') = compact_if_needed record { leases = leases; head = ready_end } world in
      (ok (ready_end - r.head), r', world')
  finish_release r ready_end (err code, leases, world) =
      (err code, record r { leases = leases }, world)

  unfoldable pub release_ready : Fifo → W → Result ℕ × Fifo × W
  unfolding scan_ready release_range compact_if_needed
  release_ready r world =
      if leb (length r.leases) r.head
      then (ok 0, no_leases, world)
      else let (ready_end, world') = scan_ready r.leases r.head (length r.leases) world in
        if ready_end == 0
        then (ok 0, r, world')
        else finish_release r ready_end (release_range (ready_end - r.head) r.head r.leases world')

  -- The loop of `clear`: whether every payload of the `rounds` leases from `i` on is ready.
  unfoldable pub all_ready : ℕ → ℕ → List (Option ℕ) → W → Bool × W
  all_ready zero i leases world = (true, world)
  all_ready (suc rounds) i leases world =
      let (done, world') = ready (payload hooks (get_or leases i none) world) world in
      let rest = all_ready rounds (suc i) leases world' in if done then rest else (false, world')

  unfoldable pub release_all : ℕ → ℕ → List (Option ℕ) → W → W
  release_all zero i leases world = world
  release_all (suc rounds) i leases world =
      release_all rounds (suc i) leases (release_lease hooks (get_or leases i none) world)

  unfoldable pub clear : Fifo → W → Result (Unit {0}) × Fifo × W
  unfolding all_ready release_all
  clear r world =
      if leb (length r.leases) r.head
      then (ok tt, no_leases, world)
      else let (done, world') = all_ready (length r.leases - r.head) r.head r.leases world in
        if done
        then (ok tt, no_leases, release_all (length r.leases - r.head) r.head r.leases world')
        else (err invalid_state, r, world')

  abbrev pub waited : Option ℕ → W → Bool × W
  waited none world = (true, world)
  waited (some p) world = hooks.is_ready p (hooks.wait p world)

  -- The loop of `waitUntilReady`: whether every payload was ready after its wait.
  unfoldable pub wait_all : ℕ → ℕ → List (Option ℕ) → W → Bool × W
  wait_all zero i leases world = (true, world)
  wait_all (suc rounds) i leases world =
      let (done, world') = waited (payload hooks (get_or leases i none) world) world in
      let rest = wait_all rounds (suc i) leases world' in if done then rest else (false, world')

  unfoldable pub wait_until_ready : Fifo → W → Result ℕ × Fifo × W
  unfolding wait_all release_all
  wait_until_ready r world =
      if leb (length r.leases) r.head
      then (ok 0, no_leases, world)
      else let (done, world') = wait_all (length r.leases - r.head) r.head r.leases world in
        if done
        then (
          ok (length r.leases - r.head),
          no_leases,
          release_all (length r.leases - r.head) r.head r.leases world',
        )
        else (err invalid_state, r, world')
