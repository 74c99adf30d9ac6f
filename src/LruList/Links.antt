-- ===== src/LruList/Links.antt =====
-- Chains of nodes in the link fields of `LruList`
-- (orteaf/include/orteaf/internal/base/lru_list.h): what writes to the fields leave of a chain.
use orteaf.Prelude.{ℕ, ◌≡◌, ◌≢◌, List, [], ◌∷◌, ◌++◌, Absent, IsDistinct, arith}
use orteaf.LruList.{write}

-- From `a` the `next` links run through `xs` to `b`, and the `prev` links run back.
abbrev pub Linked : (ℕ → ℕ) → (ℕ → ℕ) → ℕ → List ℕ → ℕ → Type 0
Linked prev next a [] b = (next a ≡ b) × (prev b ≡ a)
Linked prev next a (x ∷ xs) b = (next a ≡ x) × (prev x ≡ a) × Linked prev next x xs b

abbrev pub last_or : ℕ → List ℕ → ℕ
last_or a [] = a
last_or a (x ∷ xs) = last_or x xs

module _ (prev next : ℕ → ℕ) where
  pub Linked-append :
      (a : ℕ) (xs : List ℕ) (x : ℕ) (ys : List ℕ) (b : ℕ)
      → Linked prev next a xs x
      → Linked prev next x ys b
      → Linked prev next a (xs ++ x ∷ ys) b
  Linked-append a [] x ys b l r = (l.0, l.1, r)
  Linked-append a (y ∷ xs) x ys b l r = (l.0, l.1, Linked-append y xs x ys b l.2 r)

  pub Linked-split :
      (a : ℕ) (xs : List ℕ) (x : ℕ) (ys : List ℕ) (b : ℕ)
      → Linked prev next a (xs ++ x ∷ ys) b
      → Linked prev next a xs x × Linked prev next x ys b
  Linked-split a [] x ys b l = ((l.0, l.1), l.2)
  Linked-split a (y ∷ xs) x ys b l =
      let (left, right) = Linked-split y xs x ys b l.2 in ((l.0, l.1, left), right)

  pub prev-eq-last : (a : ℕ) (xs : List ℕ) (b : ℕ) → Linked prev next a xs b → prev b ≡ last_or a xs
  prev-eq-last a [] b l = l.1
  prev-eq-last a (x ∷ xs) b l = prev-eq-last x xs b l.2

  -- A write to the `next` field of a node outside the chain.
  pub Linked-write_next :
      (at value a : ℕ) (xs : List ℕ) (b : ℕ)
      → Absent at (a ∷ xs)
      → Linked prev next a xs b
      → Linked prev (write next at value) a xs b
  Linked-write_next at value a [] b h l = ground arith
  Linked-write_next at value a (x ∷ xs) b h l =
      ground (arith, Linked-write_next at value x xs b h.1 l.2)

  -- A write to the `prev` field of a node outside the chain.
  pub Linked-write_prev :
      (at value a : ℕ) (xs : List ℕ) (b : ℕ)
      → Absent at xs
      → at ≢ b
      → Linked prev next a xs b
      → Linked (write prev at value) next a xs b
  Linked-write_prev at value a [] b h n l = ground arith
  Linked-write_prev at value a (x ∷ xs) b h n l =
      ground (arith, Linked-write_prev at value x xs b h.1 n l.2)

  pub last-ne : (a x : ℕ) (xs : List ℕ) → Absent a (x ∷ xs) → a ≢ last_or x xs
  last-ne a x [] h = h.0
  last-ne a x (y ∷ xs) h = last-ne a y xs h.1

  -- The end of a chain moves to another node.
  pub Linked-redirect :
      (a : ℕ) (xs : List ℕ) (x b : ℕ)
      → Linked prev next a xs x
      → IsDistinct (a ∷ xs)
      → Absent b xs
      → Linked (write prev b (last_or a xs)) (write next (last_or a xs) b) a xs b
  Linked-redirect a [] x b l d h = ground arith
  Linked-redirect a (y ∷ xs) x b l d h =
      ground (arith, Linked-redirect y xs x b l.2 d.1 h.1, last-ne a y xs d.0)
