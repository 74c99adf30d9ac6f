-- ===== src/ControlBlock/Races.antt =====
-- The loops of `releaseStrong` and `tryPromoteWeakToStrong` and the `fetch_add` of `acquireStrong`, all
-- of `SharedControlBlock` (orteaf/include/orteaf/internal/base/lease/control_block/shared.h), as steps
-- of any number of threads on one strong count.
--
-- A thread reads the count into a local, and swaps if the count is still what it read; a failed or
-- spuriously failed swap reads it again. The count wraps at 2^32. Memory orderings weaker than
-- interleaving are not modelled. `zeros`, `revivals` and `wraps` only record what happened.
use orteaf.Prelude.{
  ℕ, ◌+◌, ◌-◌, ◌%◌, ◌<◌, ◌≤◌, ◌≡◌, ◌⊎◌, inl, inr, refl, ◌∙◌, Bool, true, false, ◌==◌, if◌then◌else◌,
  arith,
}
use orteaf.ControlBlock.{count_limit}

-- Where a thread stands in its call, with the count that it read.
pub data Local : Type 0 where
  idle : Local
  releasing : ℕ → Local
  promoting : ℕ → Local
  returned : Bool → Local

pub record Machine : Type 0 where
  pub strong : ℕ
  -- How many `releaseStrong` calls have seen the count drop to zero, and so released the payload.
  pub zeros : ℕ
  -- How many `acquireStrong` calls found the count at zero.
  pub revivals : ℕ
  -- How many increments wrapped the count to zero.
  pub wraps : ℕ
  pub threads : ℕ → Local

unfoldable pub update : (ℕ → Local) → ℕ → Local → ℕ → Local
update f i l j = if j == i then l else f j

-- One more in the count, which is `k`.
unfoldable pub increment : Machine → ℕ → Machine
increment m k = record m {
  strong = (k + 1) % count_limit;
  wraps = if (k + 1) % count_limit == 0 then m.wraps + 1 else m.wraps;
}

-- `acquireStrong` by thread `i`, whatever the count is.
pub data AcquireStep (m : Machine) : Machine → Type 0 where
  acquires :
      (i : ℕ)
      → m.threads i ≡ idle
      → AcquireStep m (record (increment m m.strong) {
        revivals = if m.strong == 0 then m.revivals + 1 else m.revivals;
        threads = update m.threads i (returned true);
      })

-- A step of thread `i` in `releaseStrong`.
pub data ReleaseStep (m : Machine) : Machine → Type 0 where
  reads_to_release :
      (i : ℕ)
      → m.threads i ≡ idle
      → ReleaseStep m (record m { threads = update m.threads i (releasing m.strong) })
  releases :
      (i k : ℕ)
      → m.threads i ≡ releasing k
      → 0 < k
      → m.strong ≡ k
      → ReleaseStep m (record m {
        strong = k - 1;
        zeros = if k == 1 then m.zeros + 1 else m.zeros;
        threads = update m.threads i (returned (k == 1));
      })
  release_swap_fails :
      (i k : ℕ)
      → m.threads i ≡ releasing k
      → 0 < k
      → ReleaseStep m (record m { threads = update m.threads i (releasing m.strong) })
  release_ends :
      (i k : ℕ)
      → m.threads i ≡ releasing k
      → k ≡ 0
      → ReleaseStep m (record m { threads = update m.threads i (returned false) })

-- A step of thread `i` in `tryPromoteWeakToStrong`.
pub data PromoteStep (m : Machine) : Machine → Type 0 where
  reads_to_promote :
      (i : ℕ)
      → m.threads i ≡ idle
      → PromoteStep m (record m { threads = update m.threads i (promoting m.strong) })
  promotes :
      (i k : ℕ)
      → m.threads i ≡ promoting k
      → 0 < k
      → m.strong ≡ k
      → PromoteStep m (record (increment m k) { threads = update m.threads i (returned true) })
  promote_swap_fails :
      (i k : ℕ)
      → m.threads i ≡ promoting k
      → 0 < k
      → PromoteStep m (record m { threads = update m.threads i (promoting m.strong) })
  promote_ends :
      (i k : ℕ)
      → m.threads i ≡ promoting k
      → k ≡ 0
      → PromoteStep m (record m { threads = update m.threads i (returned false) })

pub data Step (m : Machine) : Machine → Type 0 where
  acquiring : {n : Machine} → AcquireStep m n → Step m n
  in_release : {n : Machine} → ReleaseStep m n → Step m n
  in_promotion : {n : Machine} → PromoteStep m n → Step m n
  -- The thread starts another call.
  continues :
      (i : ℕ) (b : Bool)
      → m.threads i ≡ returned b
      → Step m (record m { threads = update m.threads i idle })

pub data Reach (m : Machine) : Machine → Type 0 where
  untouched : Reach m m
  moved : {n o : Machine} → Reach m n → Step n o → Reach m o

-- Each drop to zero is undone by an acquisition from zero, or is the last one; a wrap leaves the
-- count at zero without a drop.
pub record IsSafe (m : Machine) : Type 0 where
  pub balanced : m.zeros + m.wraps ≡ m.revivals + (if m.strong == 0 then 1 else 0)

AcquireStep-IsSafe : {m n : Machine} → AcquireStep m n → IsSafe m → IsSafe n
unfolding increment
AcquireStep-IsSafe (acquires i t) s = record { balanced = ground (arith, s.balanced) }

ReleaseStep-IsSafe : {m n : Machine} → ReleaseStep m n → IsSafe m → IsSafe n
ReleaseStep-IsSafe (releases i k t p e) s = ground arith
ReleaseStep-IsSafe (reads_to_release i t) s = record { balanced = s.balanced }
ReleaseStep-IsSafe (release_swap_fails i k t p) s = record { balanced = s.balanced }
ReleaseStep-IsSafe (release_ends i k t e) s = record { balanced = s.balanced }

PromoteStep-IsSafe : {m n : Machine} → PromoteStep m n → IsSafe m → IsSafe n
unfolding increment
PromoteStep-IsSafe (promotes i k t p e) s = record { balanced = ground (arith, s.balanced) }
PromoteStep-IsSafe (reads_to_promote i t) s = record { balanced = s.balanced }
PromoteStep-IsSafe (promote_swap_fails i k t p) s = record { balanced = s.balanced }
PromoteStep-IsSafe (promote_ends i k t e) s = record { balanced = s.balanced }

Step-IsSafe : {m n : Machine} → Step m n → IsSafe m → IsSafe n
Step-IsSafe (acquiring a) s = AcquireStep-IsSafe a s
Step-IsSafe (in_release a) s = ReleaseStep-IsSafe a s
Step-IsSafe (in_promotion a) s = PromoteStep-IsSafe a s
Step-IsSafe (continues i b t) s = record { balanced = s.balanced }

-- In every interleaving of acquiring, releasing and promoting threads that starts from a positive
-- count with nothing recorded: the releases that have seen the count drop to zero, with the
-- increments that wrapped to zero, are as many as the acquisitions that found the count at zero, and
-- one more if the count is zero now.
pub Reach-IsSafe :
    {m n : Machine}
    → 0 < m.strong
    → m.zeros ≡ 0
    → m.revivals ≡ 0
    → m.wraps ≡ 0
    → Reach m n
    → IsSafe n
Reach-IsSafe p z r w untouched = ground arith
Reach-IsSafe p z r w (moved before s) = Step-IsSafe s (Reach-IsSafe p z r w before)

-- So, where no acquisition found the count at zero and none wrapped, exactly one release has seen
-- the drop if the count is zero now, and none otherwise.
pub Reach-once :
    {m n : Machine}
    → 0 < m.strong
    → m.zeros ≡ 0
    → m.revivals ≡ 0
    → m.wraps ≡ 0
    → Reach m n
    → n.revivals ≡ 0
    → n.wraps ≡ 0
    → n.zeros ≡ (if n.strong == 0 then 1 else 0)
Reach-once p z r w reached revivals wraps = omega (arith, (Reach-IsSafe p z r w reached).balanced)

-- The count is zero, and no release has seen a drop since, unless an acquisition revived it.
abbrev StaysDead : Machine → Machine → Type 0
StaysDead m n = (n.strong ≡ 0) × (n.zeros ≡ m.zeros) × (n.revivals ≡ m.revivals)

AcquireStep-dead : {m n : Machine} → AcquireStep m n → m.strong ≡ 0 → m.revivals < n.revivals
unfolding increment
AcquireStep-dead (acquires i t) z = ground arith

ReleaseStep-dead : {m n : Machine} → ReleaseStep m n → m.strong ≡ 0 → StaysDead m n
ReleaseStep-dead (releases i k t p e) z = absurd (omega arith)
ReleaseStep-dead (reads_to_release i t) z = (z, refl, refl)
ReleaseStep-dead (release_swap_fails i k t p) z = (z, refl, refl)
ReleaseStep-dead (release_ends i k t e) z = (z, refl, refl)

PromoteStep-dead : {m n : Machine} → PromoteStep m n → m.strong ≡ 0 → StaysDead m n
PromoteStep-dead (promotes i k t p e) z = absurd (omega arith)
PromoteStep-dead (reads_to_promote i t) z = (z, refl, refl)
PromoteStep-dead (promote_swap_fails i k t p) z = (z, refl, refl)
PromoteStep-dead (promote_ends i k t e) z = (z, refl, refl)

Step-dead : {m n : Machine} → Step m n → m.strong ≡ 0 → StaysDead m n ⊎ (m.revivals < n.revivals)
Step-dead (acquiring a) z = inr (AcquireStep-dead a z)
Step-dead (in_release a) z = inl (ReleaseStep-dead a z)
Step-dead (in_promotion a) z = inl (PromoteStep-dead a z)
Step-dead (continues i b t) z = inl (z, refl, refl)

Step-revivals : {m n : Machine} → Step m n → m.revivals ≤ n.revivals
unfolding increment
Step-revivals (acquiring (acquires i t)) = ground arith
Step-revivals (in_release (releases i k t p e)) = omega arith
Step-revivals (in_release (reads_to_release i t)) = omega arith
Step-revivals (in_release (release_swap_fails i k t p)) = omega arith
Step-revivals (in_release (release_ends i k t e)) = omega arith
Step-revivals (in_promotion (promotes i k t p e)) = omega arith
Step-revivals (in_promotion (reads_to_promote i t)) = omega arith
Step-revivals (in_promotion (promote_swap_fails i k t p)) = omega arith
Step-revivals (in_promotion (promote_ends i k t e)) = omega arith
Step-revivals (continues i b t) = omega arith

-- Once the count is zero it stays zero and no further release sees a drop, whatever releasing and
-- promoting threads do, until an acquisition finds it at zero.
Reach-dead : {m n : Machine} → m.strong ≡ 0 → Reach m n → StaysDead m n ⊎ (m.revivals < n.revivals)
Reach-dead z untouched = inl (z, refl, refl)
Reach-dead z (moved r s) = elim (Reach-dead z r) [
  | inr revived ↦ inr (omega (arith, revived, Step-revivals s))
  | inl dead ↦ elim (Step-dead s dead.0) [
    | inl still ↦ inl (still.0, still.1 ∙ dead.1, still.2 ∙ dead.2)
    | inr now ↦ inr (omega (arith, now, dead.2))
  ]
]
