-- ===== src/LruList/Ring.antt =====
-- The ring of `LruList` (orteaf/include/orteaf/internal/base/lru_list.h) as a representation of a list of
-- nodes, and what linking and unlinking a node does to it.
use orteaf.Prelude.{
  ℕ, ◌≡◌, ◌≢◌, refl, sym, subst, List, [], ◌∷◌, ◌++◌, length, Absent, IsDistinct, arith,
  Absent-append_parts, IsDistinct-middle,
}
use mathlib.Core.List.{append-nil}
use orteaf.LruList.{LruList, null, sentinel, write, init, link_after, unlink_node}
use orteaf.LruList.Links.{
  Linked, last_or, Linked-append, Linked-split, prev-eq-last, Linked-write_next, Linked-write_prev,
  Linked-redirect,
}

pub record Represents (l : LruList) (xs : List ℕ) : Type 0 where
  pub linked : Linked l.prev l.next sentinel xs sentinel
  pub distinct : IsDistinct (sentinel ∷ xs)
  pub nonnull : Absent null xs
  pub sized : l.size ≡ length xs

pub init-Represents : (prev next : ℕ → ℕ) → Represents (init prev next) []
unfolding init
init-Represents prev next = record {
  linked = (refl, refl);
  distinct = (tt, tt);
  nonnull = tt;
  sized = refl;
}

Absent-last : (a : ℕ) (xs ys : List ℕ) → IsDistinct (a ∷ (xs ++ ys)) → Absent (last_or a xs) ys
Absent-last a [] ys d = d.0
Absent-last a (x ∷ xs) ys d = Absent-last x xs ys d.1

IsDistinct-append_left : (xs ys : List ℕ) → IsDistinct (xs ++ ys) → IsDistinct xs
IsDistinct-append_left [] ys d = tt
IsDistinct-append_left (x ∷ xs) ys d =
    ((Absent-append_parts x xs ys d.0).0, IsDistinct-append_left xs ys d.1)

module _ (prev next : ℕ → ℕ) where
  -- The links that close the gap round `x`.
  bypass :
      (xs : List ℕ) (x : ℕ) (ys : List ℕ)
      → Linked prev next sentinel (xs ++ x ∷ ys) sentinel
      → IsDistinct (sentinel ∷ (xs ++ x ∷ ys))
      → Linked
          (write prev (next x) (prev x))
          (write next (prev x) (next x))
          sentinel
          (xs ++ ys)
          sentinel
  bypass xs x [] l d =
      let (left, right) = Linked-split prev next sentinel xs x [] sentinel l in
      let outside = Absent-append_parts sentinel xs (x ∷ []) d.0 in
      let kept =
        Linked-redirect prev next sentinel xs x sentinel left
          (outside.0, IsDistinct-append_left xs (x ∷ []) d.1) outside.0 in
      rw (append-nil, right.0, prev-eq-last prev next sentinel xs x left) kept
  bypass xs x (y ∷ ys) l d =
      let (left, right) = Linked-split prev next sentinel xs x (y ∷ ys) sentinel l in
      let outside = Absent-append_parts sentinel xs (x ∷ y ∷ ys) d.0 in
      let apart = (IsDistinct-middle xs y ys (IsDistinct-middle xs x (y ∷ ys) d.1).0).1 in
      let (before, after) = Absent-append_parts y xs ys apart in
      let beyond = Absent-last sentinel xs (x ∷ y ∷ ys) d in
      let q = last_or sentinel xs in
      let kept =
        Linked-redirect prev next sentinel xs x y left
          (outside.0, IsDistinct-append_left xs (x ∷ y ∷ ys) d.1) before in
      let rest = Linked-write_next (write prev y q) next q y y ys sentinel beyond.1 (
        Linked-write_prev prev next y q y ys sentinel after (λ e. outside.1.1.0 (sym e)) right.2) in
      rw (right.0, prev-eq-last prev next sentinel xs x left)
        (Linked-append (write prev y q) (write next q y) sentinel xs y ys sentinel kept rest)

  -- The links of a node that is put behind the sentinel.
  insertion :
      (xs : List ℕ) (x : ℕ)
      → Linked prev next sentinel xs sentinel
      → IsDistinct (sentinel ∷ xs)
      → Absent x (sentinel ∷ xs)
      → Linked
          (write (write prev x sentinel) (next sentinel) x)
          (write (write next x (next sentinel)) sentinel x)
          sentinel
          (x ∷ xs)
          sentinel
  insertion [] x l d a = ground arith
  insertion (y ∷ xs) x l d a =
      let rest = Linked-write_prev prev next x sentinel y xs sentinel a.1.1 a.0 l.2 in
      let p = write prev x sentinel in
      let n = write next x y in
      let rest1 = Linked-write_next p next x y y xs sentinel a.1 rest in
      let rest2 = Linked-write_prev p n y x y xs sentinel d.1.0 (λ e. d.0.0 (sym e)) rest1 in
      let rest3 = Linked-write_next (write p y x) n sentinel x y xs sentinel d.0 rest2 in
      (
        ground arith,
        ground arith,
        (
          ground arith,
          ground arith,
          subst (λ b. Linked (write p b x) (write (write next x b) sentinel x) y xs sentinel)
              (sym l.0) rest3,
        ),
      )

pub unlink_node-Linked :
    (l : LruList) (xs : List ℕ) (x : ℕ) (ys : List ℕ)
    → Represents l (xs ++ x ∷ ys)
    → Linked (unlink_node l x).prev (unlink_node l x).next sentinel (xs ++ ys) sentinel
unfolding unlink_node
unlink_node-Linked l xs x ys r =
    let closed = bypass l.prev l.next xs x ys r.linked r.distinct in
    let outside = Absent-append_parts sentinel xs (x ∷ ys) r.distinct.0 in
    let gone = (IsDistinct-middle xs x ys r.distinct.1).1 in
    let apart : x ≢ sentinel = λ e. outside.1.0 (sym e) in
    let same : write l.next (l.prev x) (l.next x) x ≡ l.next x = ground arith in
    let p = write l.prev (l.next x) (l.prev x) in
    let n = write l.next (l.prev x) (l.next x) in
    rw same (
      Linked-write_prev p (write n x null) x null sentinel (xs ++ ys) sentinel gone apart
        (Linked-write_next p n x null sentinel (xs ++ ys) sentinel (apart, gone) closed))

pub link_after-Linked :
    (l : LruList) (xs : List ℕ) (x : ℕ)
    → Linked l.prev l.next sentinel xs sentinel
    → IsDistinct (sentinel ∷ xs)
    → Absent x (sentinel ∷ xs)
    → Linked
        (link_after l sentinel x).prev
        (link_after l sentinel x).next
        sentinel
        (x ∷ xs)
        sentinel
unfolding link_after
link_after-Linked l xs x k d a =
    let same : write l.next x (l.next sentinel) sentinel ≡ l.next sentinel = ground arith in
    let p = write l.prev x sentinel in
    let n = write (write l.next x (l.next sentinel)) sentinel x in
    subst (λ b. Linked (write p b x) n sentinel (x ∷ xs) sentinel) (sym same)
      (insertion l.prev l.next xs x k d a)
