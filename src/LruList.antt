-- ===== src/LruList.antt =====
-- `LruList` of orteaf/include/orteaf/internal/base/lru_list.h, the intrusive ring of nodes round a
-- sentinel. Nodes are addresses; the link fields of all nodes are two maps from addresses to
-- addresses, so that writes through aliased pointers are seen. No operation reads or writes a
-- node's key, so the keys are left out.
pub mod Links
pub mod Ring
pub mod Operations
pub mod Order
pub mod Refinement
mod Tests
use orteaf.Prelude.{ℕ, ◌+◌, ◌-◌, Bool, ◌||◌, ◌==◌, if◌then◌else◌}

-- `nullptr` and `&sentinel_`.
abbrev pub null : ℕ
null = 0

abbrev pub sentinel : ℕ
sentinel = 1

pub record LruList : Type 0 where
  pub prev : ℕ → ℕ
  pub next : ℕ → ℕ
  pub size : ℕ

-- An assignment to a link field of the node at `at`.
abbrev pub write : (ℕ → ℕ) → ℕ → ℕ → ℕ → ℕ
write field at value node = if node == at then value else field node

-- The constructor, over whatever the nodes' fields hold.
unfoldable pub init : (ℕ → ℕ) → (ℕ → ℕ) → LruList
init prev next = record {
  prev = write prev sentinel sentinel;
  next = write next sentinel sentinel;
  size = 0;
}

unfoldable pub empty : LruList → Bool
empty l = l.next sentinel == sentinel

unfoldable pub link_after : LruList → ℕ → ℕ → LruList
link_after l pos node =
    let prev1 = write l.prev node pos in
    let next1 = write l.next node (l.next pos) in
    let prev2 = write prev1 (next1 pos) node in
    let next2 = write next1 pos node in record l { prev = prev2; next = next2 }

unfoldable pub unlink_node : LruList → ℕ → LruList
unlink_node l node =
    let next1 = write l.next (l.prev node) (l.next node) in
    let prev1 = write l.prev (next1 node) (l.prev node) in
    record l { prev = write prev1 node null; next = write next1 node null }

unfoldable pub touch : LruList → ℕ → LruList
unfolding link_after unlink_node
touch l node =
    if node == null || node == sentinel
    then l
    else if l.next sentinel == node
    then l
    else link_after (unlink_node l node) sentinel node

unfoldable pub push_front : LruList → ℕ → LruList
unfolding link_after
push_front l node =
    if node == null || node == sentinel
    then l
    else let linked = link_after l sentinel node in record linked { size = l.size + 1 }

-- The size wraps only from 0, when the list is empty and no node can be removed.
unfoldable pub pop_back : LruList → ℕ × LruList
unfolding empty unlink_node
pop_back l =
    if empty l
    then (null, l)
    else let lru = l.prev sentinel in (lru, record (unlink_node l lru) { size = l.size - 1 })

unfoldable pub remove : LruList → ℕ → LruList
unfolding unlink_node
remove l node =
    if node == null || node == sentinel
    then l
    else record (unlink_node l node) { size = l.size - 1 }

unfoldable pub back : LruList → ℕ
unfolding empty
back l = if empty l then null else l.prev sentinel

unfoldable pub front : LruList → ℕ
unfolding empty
front l = if empty l then null else l.next sentinel

unfoldable pub clear : LruList → LruList
clear l = record {
  prev = write l.prev sentinel sentinel;
  next = write l.next sentinel sentinel;
  size = 0;
}
