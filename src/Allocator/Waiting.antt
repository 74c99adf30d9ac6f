-- ===== src/Allocator/Waiting.antt =====
-- `processPending` of deferred reuse: which blocks become ready, and which go on waiting.
use orteaf.Prelude.{
  ℕ, suc, ◌+◌, ◌≡◌, refl, ap, arith, Bool, true, List, [], ◌∷◌, map, if◌then◌else◌, length,
  Bool-cases, inl, inr,
}
use orteaf.Diagnostics.{ok}
use orteaf.Allocator.Reuse.{
  PendingReuse, ReadyReuse, ReusePolicy, to_ready, refresh, process_loop, process_pending,
  get_pending_reuse_count,
}

module _ (completed : ℕ → Bool) where
  -- The items whose tokens are completed, and the others, in the order of the queue.
  unfoldable pub finished : List PendingReuse → List PendingReuse
  finished [] = []
  finished (item ∷ rest) =
      if completed (item.reuse_token) then item ∷ finished rest else finished rest

  unfoldable pub unfinished : List PendingReuse → List PendingReuse
  unfinished [] = []
  unfinished (item ∷ rest) =
      if completed (item.reuse_token) then unfinished rest else item ∷ unfinished rest

  length-split :
      (items : List PendingReuse)
      → length (finished items) + length (unfinished items) ≡ length items
  unfolding finished unfinished
  length-split [] = refl
  length-split (item ∷ rest) = elim (Bool-cases (completed (item.reuse_token))) [
    | inl b ↦ rw b (omega (arith, length-split rest))
    | inr b ↦ rw b (omega (arith, length-split rest))
  ]

  -- Items pushed on a stack of ready blocks, one after the other.
  unfoldable pub push_ready : List PendingReuse → List ReadyReuse → List ReadyReuse
  push_ready [] ready = ready
  push_ready (item ∷ rest) ready = push_ready rest (to_ready item ∷ ready)

  process_loop_lem :
      (timeout now : ℕ) (items : List PendingReuse) (ready : List ReadyReuse)
      → process_loop completed timeout now items ready ≡ (
        map (refresh timeout now) (unfinished items),
        push_ready (finished items) ready,
        length (finished items),
      )
  unfolding process_loop finished unfinished push_ready
  process_loop_lem timeout now [] ready = refl
  process_loop_lem timeout now (item ∷ rest) ready =
      elim (Bool-cases (completed (item.reuse_token))) [
        | inl b ↦ rw (b, process_loop_lem timeout now rest (to_ready item ∷ ready)) refl
        | inr b ↦ rw (b, process_loop_lem timeout now rest ready) refl
      ]

  length-push_ready :
      (items : List PendingReuse) (ready : List ReadyReuse)
      → length (push_ready items ready) ≡ length items + length ready
  unfolding push_ready
  length-push_ready [] ready = omega arith
  length-push_ready (item ∷ rest) ready =
      omega (arith, length-push_ready rest (to_ready item ∷ ready))

  length-refreshed :
      (timeout now : ℕ) (items : List PendingReuse)
      → length (map (refresh timeout now) items) ≡ length items
  length-refreshed timeout now [] = refl
  length-refreshed timeout now (item ∷ rest) = ap suc (length-refreshed timeout now rest)

  -- `processPending` of a policy with a resource returns how many tokens are completed. The blocks of
  -- these, in the order of the queue, are pushed on the ready queue; the others go on waiting in their
  -- order, with their timestamps refreshed where they have timed out, and the number of blocks held is
  -- as before.
  pub process_pending_lem :
      (now : ℕ) (p : ReusePolicy)
      → p.has_resource ≡ true
      → (q : ReusePolicy) × (process_pending completed now p
          ≡ ok (length (finished p.pending_queue), q))
        × (q.pending_queue ≡ map (refresh p.timeout now) (unfinished p.pending_queue))
        × (q.ready_queue ≡ push_ready (finished p.pending_queue) p.ready_queue)
        × (get_pending_reuse_count q ≡ get_pending_reuse_count p)
  unfolding process_pending
  process_pending_lem now p has =
      let left = map (refresh p.timeout now) (unfinished p.pending_queue) in
      let ready = push_ready (finished p.pending_queue) p.ready_queue in
      (
        record p { pending_queue = left; ready_queue = ready },
        rw (has, process_loop_lem p.timeout now p.pending_queue p.ready_queue) refl,
        refl,
        refl,
        omega (
          arith,
          length-refreshed p.timeout now (unfinished p.pending_queue),
          length-push_ready (finished p.pending_queue) p.ready_queue,
          length-split p.pending_queue,
        ),
      )
