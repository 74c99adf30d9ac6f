-- ===== src/Allocator/LargeAlloc.antt =====
-- Allocations above the largest size class:
-- orteaf/include/orteaf/internal/execution/allocator/policies/large_alloc/direct_resource_large_alloc.h,
-- built without ORTEAF_CORE_DEBUG_ENABLED.
use Prim.Native.Nat.{bit_and, bit_or}
use orteaf.Prelude.{
  ℕ, ◌-◌, ◌%◌, ◌^◌, Bool, true, false, not, ◌&&◌, ◌||◌, List, [], ◌∷◌, ◌++◌, ltb, leb, ◌==◌,
  if◌then◌else◌, length, get_or, set,
}
use orteaf.Diagnostics.{Result, ok, ◌>>◌, throw_if, null_pointer, invalid_state}
use orteaf.Allocator.{View, no_view, is_empty, BufferBlock, no_block, Resource}

pub record Entry : Type 0 where
  pub view : View
  pub in_use : Bool

-- `Entry{}`.
abbrev pub no_entry : Entry
no_entry = record { view = no_view; in_use = false }

pub record LargeAlloc : Type 0 where
  pub has_resource : Bool
  pub entries : List Entry
  pub free_list : List ℕ

-- `kLargeMask` and `kIndexMask`.
abbrev pub large_mask : ℕ
large_mask = 2 ^ 31

abbrev pub index_mask : ℕ
index_mask = 2 ^ 31 - 1

unfoldable pub encode_id : ℕ → ℕ
encode_id index = bit_or (index % 2 ^ 32) large_mask

unfoldable pub index_from_id : ℕ → ℕ
index_from_id handle = bit_and handle index_mask

unfoldable pub is_large_alloc : ℕ → Bool
is_large_alloc handle = not (bit_and handle large_mask == 0)

abbrev pub entry_at : LargeAlloc → ℕ → Entry
entry_at l index = get_or l.entries index no_entry

unfoldable pub is_alive : LargeAlloc → ℕ → Bool
is_alive l handle =
    is_large_alloc handle
    && ltb (index_from_id handle) (length l.entries)
    && (entry_at l (index_from_id handle)).in_use
    && not (is_empty (entry_at l (index_from_id handle)).view)

abbrev pub size : LargeAlloc → ℕ
size l = length l.entries - length l.free_list

unfoldable pub initialize : Bool → LargeAlloc → Result LargeAlloc
initialize resource l =
    throw_if (not resource) null_pointer >> ok (record l { has_resource = true })

-- `reserveSlot` with its free list.
unfoldable pub reserve_from : List ℕ → LargeAlloc → ℕ × LargeAlloc
reserve_from [] l = (length l.entries, record l { entries = l.entries ++ (no_entry ∷ []) })
reserve_from (index ∷ rest) l = (index, record l { free_list = rest })

abbrev pub reserve_slot : LargeAlloc → ℕ × LargeAlloc
reserve_slot l = reserve_from l.free_list l

unfoldable pub place_entry : View → LargeAlloc → BufferBlock × LargeAlloc
place_entry view l =
    let r = reserve_slot l in
    let table = r.1 in
    (
      record { handle = encode_id r.0; view = view },
      record table { entries = set table.entries (r.0) (record { view = view; in_use = true }) },
    )

module _ {World : Type 0} (resource : Resource World) where
  unfoldable pub allocate : LargeAlloc → ℕ → ℕ → World → Result (BufferBlock × LargeAlloc × World)
  allocate l bytes alignment w =
      throw_if (not l.has_resource) invalid_state
      >> (let r = resource.allocate bytes alignment w in
          if bytes == 0
          then ok (no_block, l, w)
          else if is_empty r.0
          then ok (no_block, l, r.1)
          else (let p = place_entry (r.0) l in ok (p.0, p.1, r.1)))

  unfoldable pub deallocate : LargeAlloc → ℕ → ℕ → ℕ → World → LargeAlloc × World
  deallocate l handle bytes alignment w =
      let index = index_from_id handle in
      let entry = entry_at l index in
      if not (is_large_alloc handle) || leb (length l.entries) index
      then (l, w)
      else if not entry.in_use
      then (l, w)
      else (
        record l { entries = set l.entries index no_entry; free_list = index ∷ l.free_list },
        resource.deallocate (entry.view) bytes alignment w,
      )
