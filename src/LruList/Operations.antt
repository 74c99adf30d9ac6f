-- ===== src/LruList/Operations.antt =====
-- The operations of `LruList` (orteaf/include/orteaf/internal/base/lru_list.h) on a ring that
-- represents a list of nodes, the most recently used first.
use orteaf.Prelude.{
  ℕ, suc, ◌-◌, ◌≡◌, ◌≢◌, refl, sym, subst, ◌∙◌, false, ◌==◌, List, [], ◌∷◌, ◌++◌, length, Absent,
  arith, length-append, Absent-append, Absent-append_parts, IsDistinct-middle, ==_false, ==_refl,
}
use mathlib.Core.List.{append-nil}
use orteaf.LruList.{
  LruList, null, sentinel, unlink_node, touch, push_front, pop_back, remove, back, front, clear,
}
use orteaf.LruList.Links.{last_or, prev-eq-last}
use orteaf.LruList.Ring.{Represents, unlink_node-Linked, link_after-Linked}

length-middle :
    (xs : List ℕ) (x : ℕ) (ys : List ℕ) → length (xs ++ x ∷ ys) ≡ suc (length (xs ++ ys))
length-middle xs x ys = omega (arith, length-append xs (x ∷ ys), length-append xs ys)

-- A node that stands in the ring is neither null nor the sentinel.
module _ (l : LruList) (xs : List ℕ) (x : ℕ) (ys : List ℕ) (r : Represents l (xs ++ x ∷ ys)) where
  pub member-ne_null : x ≢ null
  member-ne_null = λ e. (Absent-append_parts null xs (x ∷ ys) r.nonnull).1.0 (sym e)

  pub member-ne_sentinel : x ≢ sentinel
  member-ne_sentinel = λ e. (Absent-append_parts sentinel xs (x ∷ ys) r.distinct.0).1.0 (sym e)

  -- What is left of the ring when the node is unlinked, whatever the size says.
  rest-Represents :
      (n : ℕ)
      → n ≡ length (xs ++ ys)
      → Represents (record (unlink_node l x) { size = n }) (xs ++ ys)
  rest-Represents n e =
      let (outside, beyond) = Absent-append_parts sentinel xs (x ∷ ys) r.distinct.0 in
      let (before, after) = Absent-append_parts null xs (x ∷ ys) r.nonnull in
      record {
        linked = unlink_node-Linked l xs x ys r;
        distinct = (
          Absent-append sentinel xs ys outside beyond.1,
          (IsDistinct-middle xs x ys r.distinct.1).0,
        );
        nonnull = Absent-append null xs ys before after.1;
        sized = e;
      }

  -- `remove` takes a node out from wherever it stands.
  pub remove-Represents : Represents (remove l x) (xs ++ ys)
  unfolding remove
  remove-Represents =
      rw (==_false x null member-ne_null, ==_false x sentinel member-ne_sentinel)
        (rest-Represents (l.size - 1) (omega (arith, length-middle xs x ys, r.sized)))

-- A node that stands in no ring becomes the most recently used.
pub push_front-Represents :
    (l : LruList) (xs : List ℕ) (x : ℕ)
    → Represents l xs
    → Absent x (null ∷ sentinel ∷ xs)
    → Represents (push_front l x) (x ∷ xs)
unfolding push_front
push_front-Represents l xs x r a =
    rw (==_false x null a.0, ==_false x sentinel a.1.0)
      record {
        linked = link_after-Linked l xs x r.linked r.distinct a.1;
        distinct = ((λ e. a.1.0 (sym e), r.distinct.0), (a.1.1, r.distinct.1));
        nonnull = (λ e. a.0 (sym e), r.nonnull);
        sized = omega (arith, r.sized);
      }

-- `touch` moves a node to the front and keeps the order of the others.
pub touch-Represents :
    (l : LruList) (xs : List ℕ) (x : ℕ) (ys : List ℕ)
    → Represents l (xs ++ x ∷ ys)
    → Represents (touch l x) (x ∷ (xs ++ ys))
unfolding touch
touch-Represents l [] x ys r =
    rw
      (
        ==_false x null (member-ne_null l [] x ys r),
        ==_false x sentinel (member-ne_sentinel l [] x ys r),
        r.linked.0,
        ==_refl x,
      )
      r
touch-Represents l (y ∷ xs) x ys r =
    let kept = rest-Represents l (y ∷ xs) x ys r (length ((y ∷ xs) ++ ys)) refl in
    let gone = (IsDistinct-middle (y ∷ xs) x ys r.distinct.1).1 in
    let not_null = member-ne_null l (y ∷ xs) x ys r in
    let not_sentinel = member-ne_sentinel l (y ∷ xs) x ys r in
    let not_first : (l.next sentinel == x) ≡ false =
      rw r.linked.0 (==_false y x (Absent-append_parts y xs (x ∷ ys) r.distinct.1.0).1.0) in
    rw (==_false x null not_null, ==_false x sentinel not_sentinel, not_first)
      record {
        linked =
            link_after-Linked (unlink_node l x) ((y ∷ xs) ++ ys) x kept.linked kept.distinct
              (not_sentinel, gone);
        distinct = ((λ e. not_sentinel (sym e), kept.distinct.0), (gone, kept.distinct.1));
        nonnull = (λ e. not_null (sym e), kept.nonnull);
        sized = omega (arith, length-middle (y ∷ xs) x ys, r.sized);
      }

first-ne_sentinel :
    (l : LruList) (xs : List ℕ) (x : ℕ) (ys : List ℕ)
    → Represents l (xs ++ x ∷ ys)
    → (l.next sentinel == sentinel) ≡ false
first-ne_sentinel l [] x ys r = rw r.linked.0 (==_false x sentinel (λ e. r.distinct.0.0 (sym e)))
first-ne_sentinel l (y ∷ xs) x ys r =
    rw r.linked.0 (==_false y sentinel (λ e. r.distinct.0.0 (sym e)))

last_or-append : (a : ℕ) (xs : List ℕ) (x : ℕ) → last_or a (xs ++ x ∷ []) ≡ x
last_or-append a [] x = refl
last_or-append a (y ∷ xs) x = last_or-append y xs x

-- `pop_back` takes out the least recently used node.
pub pop_back-Represents :
    (l : LruList) (xs : List ℕ) (x : ℕ)
    → Represents l (xs ++ x ∷ [])
    → ((pop_back l).0 ≡ x) × (back l ≡ x) × Represents (pop_back l).1 xs
unfolding pop_back back
pop_back-Represents l xs x r =
    let last =
      prev-eq-last l.prev l.next sentinel (xs ++ x ∷ []) sentinel r.linked
      ∙ last_or-append sentinel xs x in
    let sized : l.size - 1 ≡ length (xs ++ []) = omega (arith, length-middle xs x [], r.sized) in
    let kept = rest-Represents l xs x [] r (l.size - 1) sized in
    rw (first-ne_sentinel l xs x [] r, last) (refl, refl, subst (Represents _) (append-nil xs) kept)

pub empty-Represents :
    (l : LruList) → Represents l [] → (pop_back l ≡ (null, l)) × (back l ≡ null) × (front l ≡ null)
unfolding pop_back back front
empty-Represents l r = rw r.linked.0 (refl, refl, refl)

pub front-Represents : (l : LruList) (x : ℕ) (xs : List ℕ) → Represents l (x ∷ xs) → front l ≡ x
unfolding front
front-Represents l x xs r =
    rw r.linked.0 (rw (==_false x sentinel (member-ne_sentinel l [] x xs r)) refl)

pub clear-Represents : (l : LruList) → Represents (clear l) []
unfolding clear
clear-Represents l = record {
  linked = (refl, refl);
  distinct = (tt, tt);
  nonnull = tt;
  sized = refl;
}
