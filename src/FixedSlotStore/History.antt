-- ===== src/FixedSlotStore/History.antt =====
-- Histories of calls on `FixedSlotStore` keep its invariant.
use orteaf.Prelude.{sym, subst, ℕ, ◌≡◌, refl, ◌&&◌, Bool, true, false, not, List, [], ◌∷◌, arith}
use orteaf.SlotPool.{Handle, Traits, destroy_hook}
use orteaf.FixedSlotStore.{FixedSlotStore, size, emplace_by, destroy_by, destroy, release_with}
use orteaf.FixedSlotStore.Storage.{set_block_size, reserve, resize, create_range, clear}
use orteaf.FixedSlotStore.Invariant.{IsValid, IsFilled, emplace_by-IsValid, destroy_by-IsValid}
use orteaf.FixedSlotStore.Sizing.{
  set_block_size-IsFilled, reserve-IsFilled, resize-IsValid, set_block_size-IsValid,
  reserve-IsValid, create_range-IsValid, clear-IsValid,
}

module _ {P R C W : Type 0} (t : Traits P R C W) where
  -- A new store, with whatever world.
  unfoldable pub start : W → FixedSlotStore P W
  start w = record {
    payloads = record { items = []; blocks = 0; capacity = 0; block_size = 64 };
    generations = [];
    created = [];
    next_uncreated_index = 0;
    world = w;
  }

  -- The calls that may change the store.
  pub data Call : Type 0 where
    emplaces : (P → R → C → W → Bool × P × W) → Handle → R → C → Call
    destroys : (P → R → C → W → Bool × P × W) → Handle → R → C → Call
    releases : Handle → R → C → Call
    creates_range : ℕ → ℕ → R → C → Call
    resizes : ℕ → Call
    reserves : ℕ → Call
    sets_block_size : ℕ → Call
    clears : R → C → Call

  unfoldable pub perform : FixedSlotStore P W → Call → FixedSlotStore P W
  perform p (emplaces f h r c) = (emplace_by t f p h r c).1
  perform p (destroys f h r c) = (destroy_by t f p h r c).1
  perform p (releases h r c) = (release_with t p h r c).1
  perform p (creates_range from end r c) = (create_range t p from end r c).1
  perform p (resizes n) = (resize t p n).1
  perform p (reserves n) = (reserve t p n).1
  perform p (sets_block_size n) = (set_block_size t p n).1
  perform p (clears r c) = clear t p r c

  unfoldable pub perform_all : FixedSlotStore P W → List Call → FixedSlotStore P W
  unfolding perform
  perform_all p [] = p
  perform_all p (call ∷ calls) = perform_all (perform p call) calls

  -- The call destroys no single payload.
  unfoldable pub keeps_payloads : Call → Bool
  keeps_payloads (emplaces f h r c) = true
  keeps_payloads (destroys f h r c) = false
  keeps_payloads (releases h r c) = not t.destroy_on_release
  keeps_payloads (creates_range from end r c) = true
  keeps_payloads (resizes n) = true
  keeps_payloads (reserves n) = true
  keeps_payloads (sets_block_size n) = true
  keeps_payloads (clears r c) = true

  unfoldable pub all_keep_payloads : List Call → Bool
  unfolding keeps_payloads
  all_keep_payloads [] = true
  all_keep_payloads (call ∷ calls) = keeps_payloads call && all_keep_payloads calls

  start-IsValid : (w : W) → IsValid t (start w) × IsFilled (start w)
  unfolding start size IsFilled
  start-IsValid w = (
    record {
      generations_length = refl;
      created_length = refl;
      cursor_bound = omega arith;
      cursor_free = refl;
      addressable = omega arith;
    },
    λ i below. absurd (omega arith),
  )

  release_with-IsValid :
      (p : FixedSlotStore P W) (h : Handle) (r : R) (c : C)
      → IsValid t p
      → IsValid t (release_with t p h r c).1
  unfolding release_with destroy
  release_with-IsValid p h r c v =
      ground (arith, v, destroy_by-IsValid t (destroy_hook t) p h r c v)

  release_with-lazy :
      (p : FixedSlotStore P W) (h : Handle) (r : R) (c : C)
      → t.destroy_on_release ≡ false
      → (release_with t p h r c).1 ≡ p
  unfolding release_with
  release_with-lazy p h r c lazy = ground (arith, lazy)

  perform-IsValid :
      (p : FixedSlotStore P W) (call : Call)
      → IsValid t p
      → IsValid t (perform p call)
        × (keeps_payloads call ≡ true → IsFilled p → IsFilled (perform p call))
  unfolding perform keeps_payloads
  perform-IsValid p (emplaces f h r c) v =
      let k = emplace_by-IsValid t f p h r c v in (k.0, λ e. k.1)
  perform-IsValid p (destroys f h r c) v =
      (destroy_by-IsValid t f p h r c v, λ e. absurd (ground (arith, e)))
  perform-IsValid p (releases h r c) v = (
    release_with-IsValid p h r c v,
    λ e filled. subst IsFilled (sym (release_with-lazy p h r c (ground (arith, e)))) filled,
  )
  perform-IsValid p (creates_range from end r c) v =
      let k = create_range-IsValid t p from end r c v in (k.0, λ e. k.1)
  perform-IsValid p (resizes n) v = let k = resize-IsValid t p n v in (k.0, λ e. k.1)
  perform-IsValid p (reserves n) v = (reserve-IsValid t p n v, λ e. reserve-IsFilled t p n)
  perform-IsValid p (sets_block_size n) v =
      (set_block_size-IsValid t p n v, λ e. set_block_size-IsFilled t p n)
  perform-IsValid p (clears r c) v = let k = clear-IsValid t p r c in (k.0, λ e filled. k.1)

  perform_all-IsValid :
      (calls : List Call) (p : FixedSlotStore P W)
      → IsValid t p
      → IsValid t (perform_all p calls)
        × (all_keep_payloads calls ≡ true → IsFilled p → IsFilled (perform_all p calls))
  unfolding perform_all all_keep_payloads
  perform_all-IsValid [] p v = (v, λ e filled. filled)
  perform_all-IsValid (call ∷ calls) p v =
      let first = perform-IsValid p call v in
      let rest = perform_all-IsValid calls (perform p call) first.0 in
      (rest.0, λ e filled. rest.1 (ground (arith, e)) (first.1 (ground (arith, e)) filled))

  -- The store after any calls on a new one.
  pub history-IsValid :
      (w : W) (calls : List Call)
      → let p = perform_all (start w) calls in
        IsValid t p × (all_keep_payloads calls ≡ true → IsFilled p)
  history-IsValid w calls =
      let s = start-IsValid w in
      let k = perform_all-IsValid calls (start w) s.0 in (k.0, λ e. k.1 e s.1)
