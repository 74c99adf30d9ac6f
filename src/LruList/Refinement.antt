-- ===== src/LruList/Refinement.antt =====
-- `LruList` (orteaf/include/orteaf/internal/base/lru_list.h) behind its contract: a list of distinct
-- nodes in order of their last use.
use orteaf.Prelude.{
  ℕ, ◌≡◌, refl, sym, subst, ap, ◌==◌, List, [], ◌∷◌, ◌++◌, ◌⊎◌, inl, inr, Absent, arith, Bool-cases,
  ==→eq, ==_refl,
}
use orteaf.LruList.{LruList, null, sentinel, touch, push_front, pop_back, remove, clear}
use orteaf.LruList.Order.{erase, split_last}
use orteaf.LruList.Ring.{Represents}
use orteaf.LruList.Operations.{
  remove-Represents, push_front-Represents, touch-Represents, pop_back-Represents, empty-Represents,
  clear-Represents,
}

abbrev pub Contains : ℕ → List ℕ → Type 0
Contains n [] = ⊥
Contains n (x ∷ xs) = (n ≡ x) ⊎ Contains n xs

pub data Op : Type 0 where
  touch_op : ℕ → Op
  push_front_op : ℕ → Op
  pop_back_op : Op
  remove_op : ℕ → Op
  clear_op : Op

-- A method's result, null where it returns nothing, and the state after it.
unfoldable pub perform : Op → LruList → ℕ × LruList
perform (touch_op n) l = (null, touch l n)
perform (push_front_op n) l = (null, push_front l n)
perform pop_back_op l = pop_back l
perform (remove_op n) l = (null, remove l n)
perform clear_op l = (null, clear l)

unfoldable pub perform_list : Op → List ℕ → ℕ × List ℕ
unfolding erase split_last
perform_list (touch_op n) xs = (null, n ∷ erase n xs)
perform_list (push_front_op n) xs = (null, n ∷ xs)
perform_list pop_back_op xs = split_last xs
perform_list (remove_op n) xs = (null, erase n xs)
perform_list clear_op xs = (null, [])

-- What the methods' comments ask of their argument.
abbrev pub Allowed : Op → List ℕ → Type 0
Allowed (touch_op n) xs = Contains n xs
Allowed (push_front_op n) xs = Absent n (null ∷ sentinel ∷ xs)
Allowed pop_back_op xs = Unit
Allowed (remove_op n) xs = Contains n xs
Allowed clear_op xs = Unit

unfoldable pub perform_all : List Op → LruList → List ℕ × LruList
unfolding perform
perform_all [] l = ([], l)
perform_all (o ∷ ops) l =
    let (result, l') = perform o l in
    let (results, final) = perform_all ops l' in (result ∷ results, final)

unfoldable pub perform_all_list : List Op → List ℕ → List ℕ × List ℕ
unfolding perform_list
perform_all_list [] xs = ([], xs)
perform_all_list (o ∷ ops) xs =
    let (result, xs') = perform_list o xs in
    let (results, final) = perform_all_list ops xs' in (result ∷ results, final)

abbrev pub AllAllowed : List Op → List ℕ → Type 0
AllAllowed [] xs = Unit
AllAllowed (o ∷ ops) xs = Allowed o xs × AllAllowed ops (perform_list o xs).1

-- The place of a node in the list.
Contains-split :
    (n : ℕ) (xs : List ℕ)
    → Contains n xs
    → (before : List ℕ) × (after : List ℕ) × (xs ≡ before ++ n ∷ after)
      × (erase n xs ≡ before ++ after)
unfolding erase
Contains-split n [] h = absurd h
Contains-split n (x ∷ xs) h = elim (Bool-cases (n == x)) [
  | inl same ↦ ([], xs, ap (λ k. k ∷ xs) (sym (==→eq n x same)), rw same)
  | inr other ↦
      let inside : Contains n xs = elim h [
        | inl e ↦ absurd (ground (arith, ==_refl x))
        | inr k ↦ k
      ] in
      let (before, after, e, f) = Contains-split n xs inside in
      (x ∷ before, after, ap (λ ys. x ∷ ys) e, rw other (ap (λ ys. x ∷ ys) f))
]

split_last-append :
    (xs : List ℕ) (x : ℕ)
    → (before : List ℕ) × (last : ℕ) × (x ∷ xs ≡ before ++ last ∷ [])
      × (split_last (x ∷ xs) ≡ (last, before))
unfolding split_last
split_last-append [] x = ([], x, refl, refl)
split_last-append (y ∷ xs) x =
    let (before, last, e, f) = split_last-append xs y in
    (x ∷ before, last, ap (λ ys. x ∷ ys) e, rw f)

perform-Represents :
    (o : Op) (l : LruList) (xs : List ℕ)
    → Represents l xs
    → Allowed o xs
    → ((perform o l).0 ≡ (perform_list o xs).0) × Represents (perform o l).1 (perform_list o xs).1
unfolding perform perform_list
perform-Represents (touch_op n) l xs r a =
    let (before, after, e, f) = Contains-split n xs a in
    (refl, rw f (touch-Represents l before n after (subst (Represents l) e r)))
perform-Represents (push_front_op n) l xs r a = (refl, push_front-Represents l xs n r a)
perform-Represents pop_back_op l [] r a =
    let stuck = (empty-Represents l r).0 in unfold split_last in rw stuck (refl, r)
perform-Represents pop_back_op l (x ∷ xs) r a =
    let (before, last, e, f) = split_last-append xs x in
    let popped = pop_back-Represents l before last (subst (Represents l) e r) in
    rw f (popped.0, popped.2)
perform-Represents (remove_op n) l xs r a =
    let (before, after, e, f) = Contains-split n xs a in
    (refl, rw f (remove-Represents l before n after (subst (Represents l) e r)))
perform-Represents clear_op l xs r a = (refl, clear-Represents l)

-- Any sequence of operations whose arguments are as the comments ask returns on the ring of nodes
-- what it returns on the list of nodes in order of use, and leaves a ring that represents the list
-- that is left.
pub perform_all-Represents :
    (ops : List Op) (l : LruList) (xs : List ℕ)
    → Represents l xs
    → AllAllowed ops xs
    → ((perform_all ops l).0 ≡ (perform_all_list ops xs).0)
      × Represents (perform_all ops l).1 (perform_all_list ops xs).1
unfolding perform_all perform_all_list
perform_all-Represents [] l xs r a = (refl, r)
perform_all-Represents (o ∷ ops) l xs r a =
    let (same, kept) = perform-Represents o l xs r a.0 in
    let rest = perform_all-Represents ops (perform o l).1 (perform_list o xs).1 kept a.1 in
    ((λ i. same i ∷ rest.0 i), rest.1)
