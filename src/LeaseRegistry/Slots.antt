-- ===== src/LeaseRegistry/Slots.antt =====
-- `LeaseLifetimeRegistry` of orteaf/include/orteaf/internal/base/manager/lease_lifetime_registry.h: one
-- lease for each payload slot.
use orteaf.Prelude.{
  ℕ, ◌+◌, ◌-◌, Bool, true, false, not, leb, ◌==◌, if◌then◌else◌, Option, none, some, List, [], ◌∷◌,
  ◌++◌, length, get_or, set, replicate,
}
use orteaf.SlotPool.{Handle}
use orteaf.LeaseRegistry.{Leases, holds, release_lease}

-- An empty lease in an entry is `none`.
pub record Slots : Type 0 where
  pub entries : List (Option ℕ)
  pub size : ℕ

abbrev pub no_slots : Slots
no_slots = record { entries = []; size = 0 }

unfoldable pub empty : Slots → Bool
empty r = r.size == 0

-- `ensureSlot`.
unfoldable pub ensure_slot : List (Option ℕ) → ℕ → List (Option ℕ)
ensure_slot entries index =
    if leb (length entries) index
    then entries ++ replicate (index + 1 - length entries) none
    else entries

module _ {W : Type 0} (hooks : Leases W) where
  -- `findEntry`: the lease of a valid handle's entry, empty if there is none.
  unfoldable pub find_entry : Slots → Handle → Option ℕ
  find_entry r handle =
      if not (hooks.is_valid handle)
      then none
      else if leb (length r.entries) handle.index
      then none
      else get_or r.entries handle.index none

  unfoldable pub has : Slots → Handle → Bool
  unfolding find_entry
  has r handle = holds (find_entry r handle)

  abbrev pub copied : Option ℕ → W → Option ℕ × W
  copied none world = (none, world)
  copied (some block) world = (some block, hooks.copy_block block world)

  unfoldable pub get : Slots → Handle → W → Option ℕ × W
  unfolding find_entry
  get r handle world = copied (find_entry r handle) world

  -- The assignment of a lease to an entry that `ensureSlot` has made.
  abbrev pub put : Slots → ℕ → ℕ → Option ℕ → W → Slots × W
  put r index block none world =
      (record { entries = set r.entries index (some block); size = r.size + 1 }, world)
  put r index block (some old) world =
      (record r { entries = set r.entries index (some block) }, hooks.release_block old world)

  -- A lease that is not taken over is released when the call returns.
  abbrev pub set_block : Slots → ℕ → W → Bool × Slots × W
  set_block r block world =
      let handle = hooks.handle_of block world in
      if not (hooks.is_valid handle)
      then (false, r, hooks.release_block block world)
      else let grown = record r { entries = ensure_slot r.entries handle.index } in
        let (r', world') =
          put grown handle.index block (get_or grown.entries handle.index none) world in
        (true, r', world')

  -- `set`.
  unfoldable pub set_lease : Slots → Option ℕ → W → Bool × Slots × W
  unfolding ensure_slot
  set_lease r none world = (false, r, world)
  set_lease r (some block) world = set_block r block world

  abbrev pub release_entry : Slots → ℕ → Option ℕ → W → Slots × W
  release_entry r index none world = (r, world)
  release_entry r index (some block) world = (
    record { entries = set r.entries index none; size = r.size - 1 },
    hooks.release_block block world,
  )

  unfoldable pub release : Slots → Handle → W → Slots × W
  unfolding find_entry
  release r handle world = release_entry r handle.index (find_entry r handle) world

  -- The loop of `clear`: the entries stay, empty.
  unfoldable pub release_entries : List (Option ℕ) → W → List (Option ℕ) × W
  release_entries [] world = ([], world)
  release_entries (entry ∷ entries) world =
      let (rest, world') = release_entries entries (release_lease hooks entry world) in
      (none ∷ rest, world')

  unfoldable pub clear : Slots → W → Slots × W
  unfolding release_entries
  clear r world =
      let (entries, world') = release_entries r.entries world in
      (record { entries = entries; size = 0 }, world')

module _ {W : Type 0} where
  abbrev pub visit : (ℕ → W → W) → Option ℕ → W → W
  visit func none world = world
  visit func (some block) world = func block world

  -- `forEachActiveLease`.
  unfoldable pub for_each_active_lease : (ℕ → W → W) → List (Option ℕ) → W → ℕ × W
  for_each_active_lease func [] world = (0, world)
  for_each_active_lease func (entry ∷ entries) world =
      let (visited, world') = for_each_active_lease func entries (visit func entry world) in
      (if holds entry then visited + 1 else visited, world')
