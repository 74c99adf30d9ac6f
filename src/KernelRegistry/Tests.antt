-- ===== src/KernelRegistry/Tests.antt =====
-- `KernelRegistry` (orteaf/include/orteaf/internal/kernel/registry/kernel_registry.h) with room for one
-- pointer in the cache and two entries in the main memory.
use orteaf.Prelude.{ℕ, ◌+◌, ◌-◌, ◌≤◌, ◌≡◌, refl, true, some, List, [], ◌∷◌, length}
use orteaf.Prelude.Maps.{find, has, assign}
use orteaf.LruList.Order.{split_last}
use orteaf.KernelRegistry.{Config, Kernels, create, contains, register_kernel, lookup, found}
use orteaf.KernelRegistry.Invariant.{create-IsValid}
use orteaf.KernelRegistry.Lookup.{Located, lookup_lem}
use orteaf.KernelRegistry.History.{
  Op, lookup_op, register_op, perform_all, perform_all-cached, perform_all-bounds,
  perform_all-IsValid, register-lookup,
}

abbrev small : Config
small = record { cache_capacity = 1; main_memory_capacity = 2 }

abbrev kernels : Kernels ℕ ℕ
kernels = record { rebuild = λ m. m + 100; from_entry = λ e. e - 100; collects_stats = true }

-- Three kernels are registered and used; the first is evicted by the third, and is rebuilt.
abbrev calls : List (Op ℕ)
calls =
    register_op 5 50
    ∷ register_op 6 60
    ∷ register_op 7 70
    ∷ lookup_op 5 1000
    ∷ lookup_op 6 1001
    ∷ lookup_op 7 1002
    ∷ lookup_op 5 1003
    ∷ []

calls_cached : find (perform_all kernels calls (create small)).cache 5 ≡ some 1003
unfolding perform_all create find lookup register_kernel has assign split_last
calls_cached = refl

lookup_lem_example :
    let r = perform_all kernels calls (create small) in
    let (answer, r') = lookup kernels r 6 1004 in
    (found answer ≡ contains r 6) × Located 6 r' answer × ((j : ℕ) → contains r' j ≡ contains r j)
lookup_lem_example =
    lookup_lem kernels (perform_all kernels calls (create small)) 6 1004
      (perform_all-IsValid kernels calls (create small) (create-IsValid small))

perform_all-cached_example :
    (e : ℕ) × (find (perform_all kernels calls (create small)).main_memory 5 ≡ some (1003, e))
perform_all-cached_example = perform_all-cached kernels small calls 5 1003 calls_cached

perform_all-bounds_example :
    (length (perform_all kernels calls (create small)).cache ≤ 1)
    × (length (perform_all kernels calls (create small)).main_memory ≤ 2)
perform_all-bounds_example = perform_all-bounds kernels small calls

register-lookup_example :
    found
      (lookup kernels
        (perform_all kernels calls (register_kernel (perform_all kernels [] (create small)) 9 90))
        9
        2000).0
    ≡ true
register-lookup_example = register-lookup kernels small [] calls 9 90 2000 tt
