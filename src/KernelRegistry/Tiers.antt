-- ===== src/KernelRegistry/Tiers.antt =====
-- One tier of `KernelRegistry` (orteaf/include/orteaf/internal/kernel/registry/kernel_registry.h): the
-- keys of its map, its map of LRU nodes and its LRU list, and that they stay in step.
use orteaf.Prelude.{
  ℕ, head_or, ◌+◌, ◌≤◌, ◌<◌, ◌≡◌, refl, ap, ltb, if◌then◌else◌, none, some, List, [], ◌∷◌, length,
  arith,
}
use orteaf.Prelude.Maps.{Map, keys, find, remove, assign, has, length-keys}
use orteaf.LruList.Order.{erase, split_last, count, count-erase, length-erase, count-split_last}
use orteaf.KernelRegistry.{touch_node, remove_node}

-- A node for each key.
abbrev pub nodes_of : List ℕ → Map ℕ
nodes_of [] = []
nodes_of (k ∷ ks) = (k, k) ∷ nodes_of ks

module _ {V : Type 0} where
  pub keys-remove : (m : Map V) (k : ℕ) → keys (remove m k) ≡ erase k (keys m)
  unfolding remove erase
  keys-remove [] k = refl
  keys-remove ((j, w) ∷ m) k = ground (arith, keys-remove m k)

  pub keys-assign : (m : Map V) (k : ℕ) (v : V) → keys (assign m k v) ≡ k ∷ erase k (keys m)
  unfolding assign
  keys-assign m k v = ap (λ ks. k ∷ ks) (keys-remove m k)

  pub has-count : (m : Map V) (k : ℕ) → has m k ≡ ltb 0 (count k (keys m))
  unfolding has
  has-count [] k = ground arith
  has-count ((j, w) ∷ m) k = ground (arith, has-count m k)

  pub find-count : (m : Map V) (k : ℕ) (v : V) → find m k ≡ some v → 0 < count k (keys m)
  unfolding find
  find-count [] k v e = ground arith
  find-count ((j, w) ∷ m) k v e = ground (arith, find-count m k v)

  pub find-none-count : (m : Map V) (k : ℕ) → find m k ≡ none → count k (keys m) ≡ 0
  unfolding find
  find-none-count [] k e = refl
  find-none-count ((j, w) ∷ m) k e = ground (arith, find-none-count m k)

  pub length-remove :
      (m : Map V) (k : ℕ) → 0 < count k (keys m) → length (remove m k) + 1 ≡ length m
  length-remove m k h = omega (
    arith,
    length-keys (remove m k),
    length-keys m,
    ap length (keys-remove m k),
    length-erase k (keys m) h,
  )

  pub remove_absent : (m : Map V) (k : ℕ) → count k (keys m) ≡ 0 → remove m k ≡ m
  unfolding remove
  remove_absent [] k e = refl
  remove_absent ((j, w) ∷ m) k e = ground (arith, remove_absent m k)

find-nodes_of :
    (ks : List ℕ) (k : ℕ) → find (nodes_of ks) k ≡ (if ltb 0 (count k ks) then some k else none)
unfolding find
find-nodes_of [] k = ground arith
find-nodes_of (j ∷ ks) k = ground (arith, find-nodes_of ks k)

remove-nodes_of : (ks : List ℕ) (k : ℕ) → remove (nodes_of ks) k ≡ nodes_of (erase k ks)
unfolding remove erase
remove-nodes_of [] k = refl
remove-nodes_of (j ∷ ks) k = ground (arith, remove-nodes_of ks k)

-- Every key has one node, which stands in the list once, and no other node does.
pub record IsOrdered (ks : List ℕ) (nodes : Map ℕ) (lru : List ℕ) : Type 0 where
  pub nodes_eq : nodes ≡ nodes_of ks
  pub order : (k : ℕ) → count k lru ≡ count k ks
  pub once : (k : ℕ) → count k ks ≤ 1

pub empty-IsOrdered : IsOrdered [] [] []
empty-IsOrdered = record { nodes_eq = refl; order = λ k. refl; once = λ k. omega arith }

module _ (ks : List ℕ) (nodes : Map ℕ) (lru : List ℕ) (o : IsOrdered ks nodes lru) where
  node_of : (k : ℕ) → find nodes k ≡ (if ltb 0 (count k ks) then some k else none)
  node_of k = rw o.nodes_eq (find-nodes_of ks k)

  pub touch-IsOrdered : (k : ℕ) → IsOrdered ks nodes (touch_node (find nodes k) lru)
  touch-IsOrdered k = record {
    nodes_eq = o.nodes_eq;
    order = λ j. ground (arith, node_of k, o.order j, o.order k, count-erase j k lru);
    once = o.once;
  }

  pub head-touch : (k d : ℕ) → 0 < count k ks → head_or d (touch_node (find nodes k) lru) ≡ k
  head-touch k d h = ground (arith, node_of k)

  pub remove-IsOrdered :
      (k : ℕ) → IsOrdered (erase k ks) (remove nodes k) (remove_node (find nodes k) lru)
  remove-IsOrdered k = record {
    nodes_eq = rw o.nodes_eq (remove-nodes_of ks k);
    order = λ j.
        ground (arith, node_of k, o.order j, o.order k, count-erase j k lru, count-erase j k ks);
    once = λ j. omega (arith, o.once j, count-erase j k ks);
  }

  pub insert-IsOrdered :
      (k : ℕ) → count k ks ≡ 0 → IsOrdered (k ∷ erase k ks) (assign nodes k k) (k ∷ lru)
  unfolding assign
  insert-IsOrdered k absent = record {
    nodes_eq = rw o.nodes_eq (ap (λ m. (k, k) ∷ m) (remove-nodes_of ks k));
    order = λ j. ground (arith, o.order j, count-erase j k ks);
    once = λ j. ground (arith, o.once j, count-erase j k ks);
  }

-- What `pop_back` takes out is a key of the tier.
pub pop_back-IsOrdered :
    (ks : List ℕ) (nodes : Map ℕ) (x : ℕ) (lru : List ℕ)
    → IsOrdered ks nodes (x ∷ lru)
    → let popped = split_last (x ∷ lru) in
      IsOrdered (erase popped.0 ks) (remove nodes popped.0) popped.1 × (0 < count popped.0 ks)
pop_back-IsOrdered ks nodes x lru o =
    let key = (split_last (x ∷ lru)).0 in
    (
      record {
        nodes_eq = rw o.nodes_eq (remove-nodes_of ks key);
        order = λ j. ground (arith, o.order j, count-split_last j x lru, count-erase j key ks);
        once = λ j. omega (arith, o.once j, count-erase j key ks);
      },
      ground (arith, o.order key, count-split_last key x lru),
    )

-- An empty list means an empty tier.
pub no_nodes-IsOrdered : (ks : List ℕ) (nodes : Map ℕ) → IsOrdered ks nodes [] → ks ≡ []
no_nodes-IsOrdered [] nodes o = refl
no_nodes-IsOrdered (k ∷ ks) nodes o = absurd (ground (arith, o.order k))
