-- ===== src/SlotPool/Acquire.antt =====
-- The freelist methods of `SlotPool`: acquiring, reserving and releasing slots.
use orteaf.Prelude.{
  ℕ, zero, suc, ◌+◌, ◌%◌, Bool, true, false, not, [], ◌∷◌, if◌then◌else◌, length, get_or, set,
}
use orteaf.Diagnostics.{out_of_range, Result, ok, err}
use orteaf.SlotPool.{
  Handle, Traits, SlotPool, invalid_handle, names_slot, is_valid, is_created, make_handle, destroy,
}

module _ {P R C W : Type 0} (t : Traits P R C W) where
  -- The scanning loop, by rounds left: it pops the back of the freelist, takes it if its created
  -- flag passes the test, and otherwise pushes it back.
  unfoldable pub scan : (Bool → Bool) → ℕ → SlotPool P W → Handle × SlotPool P W
  scan wanted zero p = (invalid_handle t, p)
  scan wanted (suc rounds) p = elim p.freelist [
    | [] ↦ (invalid_handle t, p)
    | idx ∷ rest ↦
        let again = scan wanted rounds (record p { freelist = idx ∷ rest }) in
        if wanted (get_or p.created idx false)
        then (make_handle t p idx, record p { freelist = rest })
        else again
  ]

  unfoldable pub try_acquire_created : SlotPool P W → Handle × SlotPool P W
  unfolding scan
  try_acquire_created p = scan (λ created. created) (length p.freelist) p

  unfoldable pub try_reserve_uncreated : SlotPool P W → Handle × SlotPool P W
  unfolding scan
  try_reserve_uncreated p = scan not (length p.freelist) p

  -- An invalid handle becomes an exception.
  abbrev pub or_throw : Handle × SlotPool P W → Result Handle × SlotPool P W
  or_throw r = (if names_slot t r.0 then ok r.0 else err out_of_range, r.1)

  unfoldable pub acquire_created : SlotPool P W → Result Handle × SlotPool P W
  acquire_created p = or_throw (try_acquire_created p)

  unfoldable pub reserve_uncreated : SlotPool P W → Result Handle × SlotPool P W
  reserve_uncreated p = or_throw (try_reserve_uncreated p)

  -- The generation wraps round.
  unfoldable pub release_impl : SlotPool P W → Handle → Bool × SlotPool P W
  release_impl p h =
      if is_valid t p h
      then (
        true,
        record p {
          generations =
              if t.has_generation
              then set p.generations h.index
                  ((get_or p.generations h.index 0 + 1) % t.generation_count)
              else p.generations;
          freelist = h.index ∷ p.freelist;
        },
      )
      else (false, p)

  -- With `destroy_on_release` the payload must be created, and is destroyed first.
  unfoldable pub release_by : SlotPool P W → Handle → R → C → Bool × SlotPool P W
  release_by p h request context =
      if not (is_valid t p h)
      then (false, p)
      else if t.destroy_on_release
      then if not (is_created t p h)
        then (false, p)
        else (let (destroyed, q) = destroy t p h request context in
            if destroyed then release_impl q h else (false, q))
      else release_impl p h

  unfoldable pub release : SlotPool P W → Handle → Bool × SlotPool P W
  release p h =
      if t.destroy_on_release then release_by p h t.no_request t.no_context else release_impl p h
