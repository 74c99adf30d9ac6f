-- ===== src/LeaseRegistry/Active.antt =====
-- The count of `LeaseLifetimeRegistry`
-- (orteaf/include/orteaf/internal/base/manager/lease_lifetime_registry.h) and the leases it holds.
use orteaf.Prelude.{
  ℕ, zero, suc, ◌+◌, ◌-◌, ◌<◌, ◌≡◌, refl, sym, ◌∙◌, if◌then◌else◌, Option, none, some, List, [],
  ◌∷◌, ◌++◌, length, get_or, set, replicate, arith, Bool-cases, Option-cases, inl, inr,
  length-append, length-replicate,
}
use orteaf.SlotPool.{Handle}
use orteaf.LeaseRegistry.{Leases, holds, release_lease}
use orteaf.LeaseRegistry.Slots.{
  Slots, no_slots, ensure_slot, find_entry, set_lease, put, release, release_entries, clear,
  for_each_active_lease,
}

abbrev pub active : List (Option ℕ) → ℕ
active [] = 0
active (entry ∷ entries) = (if holds entry then 1 else 0) + active entries

active-set :
    (entries : List (Option ℕ)) (i : ℕ) (v : Option ℕ)
    → i < length entries
    → active (set entries i v) + (if holds (get_or entries i none) then 1 else 0)
      ≡ active entries + (if holds v then 1 else 0)
active-set [] i v h = absurd (omega arith)
active-set (x ∷ xs) zero v h = omega arith
active-set (x ∷ xs) (suc i) v h = omega (arith, active-set xs i v (omega arith))

active-replicate : (n : ℕ) → active (replicate n none) ≡ 0
active-replicate zero = refl
active-replicate (suc n) = omega (arith, active-replicate n)

active-append : (xs ys : List (Option ℕ)) → active (xs ++ ys) ≡ active xs + active ys
active-append [] ys = omega arith
active-append (x ∷ xs) ys = omega (arith, active-append xs ys)

ensure_slot_lem :
    (entries : List (Option ℕ)) (i : ℕ)
    → (active (ensure_slot entries i) ≡ active entries) × (i < length (ensure_slot entries i))
unfolding ensure_slot
ensure_slot_lem entries i = ground (
  arith,
  active-append entries (replicate (i + 1 - length entries) none),
  active-replicate (i + 1 - length entries),
  length-append entries (replicate (i + 1 - length entries) none),
  length-replicate {A = Option ℕ} (i + 1 - length entries) none,
)

pub data Op : Type 0 where
  set_op : Option ℕ → Op
  release_op : Handle → Op
  clear_op : Op

module _ {W : Type 0} (hooks : Leases W) where
  unfoldable pub perform : Op → Slots → W → Slots × W
  unfolding set_lease release clear
  perform (set_op lease) r w = let (taken, r', w') = set_lease hooks r lease w in (r', w')
  perform (release_op h) r w = release hooks r h w
  perform clear_op r w = clear hooks r w

  unfoldable pub perform_all : List Op → Slots → W → Slots × W
  unfolding perform
  perform_all [] r w = (r, w)
  perform_all (o ∷ ops) r w = let (r', w') = perform o r w in perform_all ops r' w'

  put-size :
      (r : Slots) (i block : ℕ) (w : W)
      → r.size ≡ active r.entries
      → i < length r.entries
      → let r' = (put hooks r i block (get_or r.entries i none) w).0 in r'.size ≡ active r'.entries
  put-size r i block w e h = elim (Option-cases (get_or r.entries i none)) [
    | inl vacant ↦ rw vacant (ground (arith, active-set r.entries i (some block) h))
    | inr (old, taken) ↦ rw taken (ground (arith, active-set r.entries i (some block) h))
  ]

  set_lease-size :
      (r : Slots) (lease : Option ℕ) (w : W)
      → r.size ≡ active r.entries
      → let r' = (set_lease hooks r lease w).1 in r'.size ≡ active r'.entries
  unfolding set_lease
  set_lease-size r none w e = e
  set_lease-size r (some block) w e =
      let handle = hooks.handle_of block w in
      elim (Bool-cases (hooks.is_valid handle)) [
        | inr refused ↦ rw refused e
        | inl accepted ↦
            let (same, inside) = ensure_slot_lem r.entries handle.index in
            let grown = record r { entries = ensure_slot r.entries handle.index } in
            rw accepted (put-size grown handle.index block w (e ∙ sym same) inside)
      ]

  -- A found lease stands in an entry of the vector.
  find_entry-holds :
      (r : Slots) (h : Handle) (block : ℕ)
      → find_entry hooks r h ≡ some block
      → (h.index < length r.entries) × (get_or r.entries h.index none ≡ some block)
  unfolding find_entry
  find_entry-holds r h block e = ground arith

  release-size :
      (r : Slots) (h : Handle) (w : W)
      → r.size ≡ active r.entries
      → let r' = (release hooks r h w).0 in r'.size ≡ active r'.entries
  unfolding release
  release-size r h w e = elim (Option-cases (find_entry hooks r h)) [
    | inl away ↦ rw away e
    | inr (block, here) ↦
        let (inside, held) = find_entry-holds r h block here in
        rw here (ground (arith, active-set r.entries h.index none inside))
  ]

  release_entries-active :
      (entries : List (Option ℕ)) (w : W) → active (release_entries hooks entries w).0 ≡ 0
  unfolding release_entries
  release_entries-active [] w = refl
  release_entries-active (x ∷ xs) w =
      omega (arith, release_entries-active xs (release_lease hooks x w))

  perform-size :
      (o : Op) (r : Slots) (w : W)
      → r.size ≡ active r.entries
      → let r' = (perform o r w).0 in r'.size ≡ active r'.entries
  unfolding perform
  perform-size (set_op lease) r w e = set_lease-size r lease w e
  perform-size (release_op h) r w e = release-size r h w e
  perform-size clear_op r w e = unfold clear in sym (release_entries-active r.entries w)

  perform_all-size :
      (ops : List Op) (r : Slots) (w : W)
      → r.size ≡ active r.entries
      → let r' = (perform_all ops r w).0 in r'.size ≡ active r'.entries
  unfolding perform_all
  perform_all-size [] r w e = e
  perform_all-size (o ∷ ops) r w e =
      let (r', w') = perform o r w in perform_all-size ops r' w' (perform-size o r w e)

  for_each-active :
      (func : ℕ → W → W) (entries : List (Option ℕ)) (w : W)
      → (for_each_active_lease func entries w).0 ≡ active entries
  unfolding for_each_active_lease
  for_each-active func [] w = refl
  for_each-active func (none ∷ xs) w = omega (arith, for_each-active func xs w)
  for_each-active func (some block ∷ xs) w = omega (arith, for_each-active func xs (func block w))

  -- After any calls of `set`, `release` and `clear` on a new registry, whatever leases and handles
  -- they are given, the size is the number of leases that `forEachActiveLease` visits.
  pub perform_all-for_each :
      (ops : List Op) (w w' : W) (func : ℕ → W → W)
      → let r = (perform_all ops no_slots w).0 in
        r.size ≡ (for_each_active_lease func r.entries w').0
  perform_all-for_each ops w w' func =
      perform_all-size ops no_slots w refl
      ∙ sym (for_each-active func (perform_all ops no_slots w).0.entries w')
