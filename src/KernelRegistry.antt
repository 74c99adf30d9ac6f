-- ===== src/KernelRegistry.antt =====
-- `KernelRegistry` of orteaf/include/orteaf/internal/kernel/registry/kernel_registry.h, with its
-- configuration (kernel_registry_config.h): kernels in a cache of pointers, in a main memory of
-- owned entries and in a secondary storage of metadata.
--
-- An entry's address is a number; the address that `std::make_unique` returns is an argument of the
-- call, any number. An LRU list is the list of the keys of its nodes, the contract that
-- `LruList.Refinement` shows its links to keep; a node is known by its key. A key is its 64 bits.
-- Entries and metadata, and how one is built from the other, are parameters.
pub mod Tiers
pub mod Invariant
pub mod Preservation
pub mod Paging
pub mod Lookup
pub mod History
mod Tests
use orteaf.Prelude.{
  ℕ, ◌+◌, ◌≤◌, Bool, true, false, ◌||◌, leb, if◌then◌else◌, Option, none, some, List, [], ◌∷◌,
  length,
}
use orteaf.Prelude.Maps.{Map, find, remove, assign, has}
use orteaf.LruList.Order.{erase, split_last}

-- `KernelRegistryConfig`.
pub record Config : Type 0 where
  pub cache_capacity : ℕ
  pub main_memory_capacity : ℕ

-- `Stats`, without bounds.
pub record Stats : Type 0 where
  pub cache_hits : ℕ
  pub main_memory_hits : ℕ
  pub secondary_hits : ℕ
  pub misses : ℕ

abbrev pub no_stats : Stats
no_stats = record { cache_hits = 0; main_memory_hits = 0; secondary_hits = 0; misses = 0 }

abbrev pub cache_hit : Stats → Stats
cache_hit s = record s { cache_hits = s.cache_hits + 1 }

abbrev pub main_memory_hit : Stats → Stats
main_memory_hit s = record s { main_memory_hits = s.main_memory_hits + 1 }

abbrev pub secondary_hit : Stats → Stats
secondary_hit s = record s { secondary_hits = s.secondary_hits + 1 }

abbrev pub miss : Stats → Stats
miss s = record s { misses = s.misses + 1 }

abbrev pub found : Option ℕ → Bool
found none = false
found (some address) = true

pub record Registry (Entry Metadata : Type 0) : Type 0 where
  pub cache : Map ℕ
  pub cache_nodes : Map ℕ
  pub cache_lru : List ℕ
  -- The address of an entry, and the entry.
  pub main_memory : Map (ℕ × Entry)
  pub main_memory_nodes : Map ℕ
  pub main_memory_lru : List ℕ
  pub secondary_storage : Map Metadata
  pub config : Config
  pub stats : Stats

-- `touch` of the node that a map of nodes holds for a key, if any.
abbrev pub touch_node : Option ℕ → List ℕ → List ℕ
touch_node none lru = lru
touch_node (some node) lru = node ∷ erase node lru

abbrev pub pop_back : List ℕ → Option (ℕ × List ℕ)
pop_back [] = none
pop_back (x ∷ xs) = some (split_last (x ∷ xs))

-- `remove` of the node that a map of nodes holds for a key, if any.
abbrev pub remove_node : Option ℕ → List ℕ → List ℕ
remove_node none lru = lru
remove_node (some node) lru = erase node lru

module _ {E M : Type 0} where
  pub create : Config → Registry E M
  create config = record {
    cache = [];
    cache_nodes = [];
    cache_lru = [];
    main_memory = [];
    main_memory_nodes = [];
    main_memory_lru = [];
    secondary_storage = [];
    config = config;
    stats = no_stats;
  }

  unfoldable pub touch_cache : Registry E M → ℕ → Registry E M
  touch_cache r key = record r { cache_lru = touch_node (find r.cache_nodes key) r.cache_lru }

  abbrev pub found_cached : Registry E M → ℕ → Option ℕ → Option ℕ × Registry E M
  found_cached r key none = (none, r)
  found_cached r key (some address) = (some address, touch_cache r key)

  unfoldable pub lookup_cache : Registry E M → ℕ → Option ℕ × Registry E M
  unfolding touch_cache
  lookup_cache r key = found_cached r key (find r.cache key)

  -- What `evictFromCache` does with the node that `popBack` returned.
  abbrev pub drop_cached : Registry E M → Option (ℕ × List ℕ) → Registry E M
  drop_cached r none = r
  drop_cached r (some (key, lru)) = record r {
    cache = remove r.cache key;
    cache_nodes = remove r.cache_nodes key;
    cache_lru = lru;
  }

  unfoldable pub evict_from_cache : Registry E M → Registry E M
  evict_from_cache r = drop_cached r (pop_back r.cache_lru)

  -- The eviction in `promoteToCache`.
  unfoldable pub make_cache_room : Registry E M → Registry E M
  unfolding evict_from_cache
  make_cache_room r = if leb r.config.cache_capacity (length r.cache) then evict_from_cache r else r

  abbrev pub insert_cached : Registry E M → ℕ → ℕ → Registry E M
  insert_cached r key address = record r {
    cache = assign r.cache key address;
    cache_nodes = assign r.cache_nodes key key;
    cache_lru = key ∷ r.cache_lru;
  }

  unfoldable pub promote_to_cache : Registry E M → ℕ → ℕ → Registry E M
  unfolding touch_cache make_cache_room
  promote_to_cache r key address =
      if has r.cache key then touch_cache r key else insert_cached (make_cache_room r) key address

  unfoldable pub touch_main_memory : Registry E M → ℕ → Registry E M
  touch_main_memory r key = record r {
    main_memory_lru = touch_node (find r.main_memory_nodes key) r.main_memory_lru;
  }

  abbrev pub found_owned : Registry E M → ℕ → Option (ℕ × E) → Option ℕ × Registry E M
  found_owned r key none = (none, r)
  found_owned r key (some owned) = (some owned.0, touch_main_memory r key)

  unfoldable pub lookup_main_memory : Registry E M → ℕ → Option ℕ × Registry E M
  unfolding touch_main_memory
  lookup_main_memory r key = found_owned r key (find r.main_memory key)

  abbrev pub insert_owned : Registry E M → ℕ → ℕ → E → Registry E M
  insert_owned r key address entry = record r {
    main_memory = assign r.main_memory key (address, entry);
    main_memory_nodes = assign r.main_memory_nodes key key;
    main_memory_lru = key ∷ r.main_memory_lru;
  }

  -- `contains`.
  unfoldable pub contains : Registry E M → ℕ → Bool
  contains r key = has r.cache key || (has r.main_memory key || has r.secondary_storage key)

  unfoldable pub register_kernel : Registry E M → ℕ → M → Registry E M
  unfolding contains
  register_kernel r key metadata =
      if contains r key
      then r
      else record r { secondary_storage = assign r.secondary_storage key metadata }

  unfoldable pub flush : Registry E M → Registry E M
  flush r = record r { cache = []; cache_nodes = []; cache_lru = [] }

  unfoldable pub clear : Registry E M → Registry E M
  unfolding create
  clear r = create r.config

-- What the registry takes of entries and metadata: `KernelMetadataLease::rebuild` and `fromEntry`,
-- and whether statistics are compiled in.
pub record Kernels (Entry Metadata : Type 0) : Type 0 where
  pub rebuild : Metadata → Entry
  pub from_entry : Entry → Metadata
  pub collects_stats : Bool

module _ {E M : Type 0} (kernels : Kernels E M) where
  abbrev pub record_stats : (Stats → Stats) → Registry E M → Registry E M
  record_stats count r = if kernels.collects_stats then record r { stats = count r.stats } else r

  -- What `evictFromMainMemory` does with the entry of the evicted key, if any.
  abbrev pub demote : Registry E M → ℕ → Option (ℕ × E) → Registry E M
  demote r key none = r
  demote r key (some owned) = record r {
    secondary_storage = assign r.secondary_storage key (kernels.from_entry owned.1);
    main_memory = remove r.main_memory key;
  }

  -- The rest of `evictFromMainMemory`, after the entry is demoted.
  abbrev pub forget : Registry E M → ℕ → Registry E M
  forget r key = record r {
    main_memory_nodes = remove r.main_memory_nodes key;
    cache = remove r.cache key;
    cache_lru = remove_node (find r.cache_nodes key) r.cache_lru;
    cache_nodes = remove r.cache_nodes key;
  }

  -- What `evictFromMainMemory` does with the node that `popBack` returned.
  abbrev pub drop_owned : Registry E M → Option (ℕ × List ℕ) → Registry E M
  drop_owned r none = r
  drop_owned r (some (key, lru)) =
      forget (demote (record r { main_memory_lru = lru }) key (find r.main_memory key)) key

  unfoldable pub evict_from_main_memory : Registry E M → Registry E M
  evict_from_main_memory r = drop_owned r (pop_back r.main_memory_lru)

  -- The eviction in `lookupSecondaryStorage`.
  unfoldable pub make_main_memory_room : Registry E M → Registry E M
  unfolding evict_from_main_memory
  make_main_memory_room r =
      if leb r.config.main_memory_capacity (length r.main_memory)
      then evict_from_main_memory r
      else r

  -- `address` is where the rebuilt entry is allocated.
  unfoldable pub page_in : Registry E M → ℕ → ℕ → M → Registry E M
  unfolding make_main_memory_room
  page_in r key address metadata =
      let taken = record r { secondary_storage = remove r.secondary_storage key } in
      insert_owned (make_main_memory_room taken) key address (kernels.rebuild metadata)

  abbrev pub found_stored : Registry E M → ℕ → ℕ → Option M → Option ℕ × Registry E M
  found_stored r key address none = (none, r)
  found_stored r key address (some metadata) = (some address, page_in r key address metadata)

  unfoldable pub lookup_secondary_storage : Registry E M → ℕ → ℕ → Option ℕ × Registry E M
  unfolding page_in
  lookup_secondary_storage r key address = found_stored r key address (find r.secondary_storage key)

  -- Each tier's result with the registry after it.
  abbrev pub after_secondary : ℕ → Option ℕ × Registry E M → Option ℕ × Registry E M
  after_secondary key (none, r) = (none, record_stats miss r)
  after_secondary key (some address, r) =
      (some address, promote_to_cache (record_stats secondary_hit r) key address)

  abbrev pub after_main : ℕ → ℕ → Option ℕ × Registry E M → Option ℕ × Registry E M
  after_main key fresh (none, r) = after_secondary key (lookup_secondary_storage r key fresh)
  after_main key fresh (some address, r) =
      (some address, promote_to_cache (record_stats main_memory_hit r) key address)

  abbrev pub after_cache : ℕ → ℕ → Option ℕ × Registry E M → Option ℕ × Registry E M
  after_cache key fresh (none, r) = after_main key fresh (lookup_main_memory r key)
  after_cache key fresh (some address, r) = (some address, record_stats cache_hit r)

  unfoldable pub lookup : Registry E M → ℕ → ℕ → Option ℕ × Registry E M
  unfolding lookup_cache lookup_main_memory lookup_secondary_storage promote_to_cache
  lookup r key fresh = after_cache key fresh (lookup_cache r key)

  unfoldable pub prefetch : Registry E M → ℕ → ℕ → Bool × Registry E M
  unfolding lookup
  prefetch r key fresh = let (result, r') = lookup r key fresh in (found result, r')
