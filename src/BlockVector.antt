-- ===== src/BlockVector.antt =====
-- `RuntimeBlockVector` of orteaf/include/orteaf/internal/base/runtime_block_vector.h: a vector whose
-- elements lie in blocks of one size, so that growth moves no element. The elements are a list in
-- index order, and the allocated blocks are counted; addresses are not modelled. Sums and products of
-- `std::size_t` wrap at 2^64.
pub mod Laws
mod Tests
use orteaf.Prelude.{
  ℕ, zero, suc, ◌+◌, ◌-◌, ◌*◌, ◌/◌, ◌%◌, ◌^◌, Bool, true, false, Option, none, some, List, [], ◌∷◌,
  ◌++◌, ltb, leb, ◌==◌, if◌then◌else◌, length, take, replicate,
}

pub record BlockVector {ℓ} (A : Type ℓ) : Type ℓ where
  pub items : List A
  pub blocks : ℕ
  pub capacity : ℕ
  pub block_size : ℕ

-- How many values `std::size_t` has.
abbrev pub size_limit : ℕ
size_limit = 2 ^ 64

-- `(count + block_size - 1) / block_size`; the difference is a sum that wraps.
unfoldable pub blocks_for : ℕ → ℕ → ℕ
blocks_for count block_size = (count + block_size + (size_limit - 1)) % size_limit / block_size

-- `while (blocks_.size() < needed_blocks) blocks_.pushBack(allocateBlock());`, by rounds left.
add_blocks : ℕ → ℕ → ℕ
add_blocks zero blocks = blocks
add_blocks (suc rounds) blocks = add_blocks rounds (blocks + 1)

module _ {ℓ} {A : Type ℓ} where
  -- The constructor refuses a block size of 0.
  pub make : ℕ → Option (BlockVector A)
  make block_size =
      if block_size == 0
      then none
      else some (record { items = []; blocks = 0; capacity = 0; block_size = block_size })

  unfoldable pub size : BlockVector A → ℕ
  size v = length v.items

  pub ensure_capacity_for : BlockVector A → ℕ → BlockVector A
  unfolding add_blocks blocks_for
  ensure_capacity_for v required = if leb required v.capacity then v else record v {
    blocks = add_blocks (needed - v.blocks) v.blocks;
    capacity = add_blocks (needed - v.blocks) v.blocks * v.block_size % size_limit;
  }
    where
      needed : ℕ
      needed = blocks_for required v.block_size

  -- New elements are value-initialised, as `fresh`.
  unfoldable pub resize : A → BlockVector A → ℕ → BlockVector A
  unfolding size
  resize fresh v new_size =
      if ltb new_size (size v)
      then record v { items = take new_size v.items }
      else record (ensure_capacity_for v new_size) {
        items = v.items ++ replicate (new_size - size v) fresh;
      }

  pub emplace_back : BlockVector A → A → BlockVector A
  unfolding size
  emplace_back v a = record (ensure_capacity_for v ((size v + 1) % size_limit)) {
    items = v.items ++ (a ∷ []);
  }

  pub pop_back : BlockVector A → BlockVector A
  unfolding size
  pop_back v = if size v == 0 then v else record v { items = take (size v - 1) v.items }

  unfoldable pub clear : BlockVector A → BlockVector A
  clear v = record v { items = [] }

  unfoldable pub reserve : BlockVector A → ℕ → BlockVector A
  reserve v new_capacity =
      if leb new_capacity v.capacity then v else ensure_capacity_for v new_capacity

  rebuild_storage : BlockVector A → ℕ → BlockVector A
  unfolding size blocks_for
  rebuild_storage v new_block_size = record v {
    blocks = needed;
    block_size = new_block_size;
    capacity = needed * new_block_size % size_limit;
  }
    where
      needed : ℕ
      needed = if size v == 0 then 0 else blocks_for (size v) new_block_size

  -- A block size of 0 is refused.
  unfoldable pub resize_blocks : BlockVector A → ℕ → Option (BlockVector A)
  unfolding rebuild_storage
  resize_blocks v block_size =
      if block_size == 0
      then none
      else if v.block_size == block_size
      then some v
      else some (rebuild_storage v block_size)

  -- The block that holds an index, and the place in it.
  pub ptr_at : BlockVector A → ℕ → ℕ × ℕ
  ptr_at v idx = (idx / v.block_size, idx % v.block_size)

-- The calls that change a vector.
pub data Call {ℓ} (A : Type ℓ) : Type ℓ where
  resizes : ℕ → Call A
  emplaces : A → Call A
  pops : Call A
  clears : Call A
  reserves : ℕ → Call A
  resizes_blocks : ℕ → Call A

-- A call that throws leaves the vector as it was.
abbrev pub kept_or {ℓ} : {A : Type ℓ} → A → Option A → A
kept_or v none = v
kept_or v (some w) = w

module _ {ℓ} {A : Type ℓ} (fresh : A) where
  pub step : BlockVector A → Call A → BlockVector A
  step v (resizes n) = resize fresh v n
  step v (emplaces a) = emplace_back v a
  step v pops = pop_back v
  step v clears = clear v
  step v (reserves n) = reserve v n
  step v (resizes_blocks n) = kept_or v (resize_blocks v n)

  pub run : BlockVector A → List (Call A) → BlockVector A
  run v [] = v
  run v (c ∷ cs) = run (step v c) cs
