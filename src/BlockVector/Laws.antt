-- ===== src/BlockVector/Laws.antt =====
-- Capacity and addressing of `RuntimeBlockVector`.
use native.Mathlib.Nat.{div-lt_iff_lt-mul, div-add-mod, mod-lt, mod-eq_of_lt}
use orteaf.Prelude.{
  ℕ, zero, suc, ◌+◌, ◌-◌, ◌*◌, ◌/◌, ◌%◌, ◌≤◌, ◌<◌, ◌≡◌, refl, ap, inl, inr, some, List, [], ◌∷◌,
  ltb, leb, ◌==◌, length, take, replicate, arith, length-append, length-replicate, Bool-cases,
  leb→le, ltb-false,
}
use orteaf.BlockVector.{
  BlockVector, size_limit, blocks_for, rebuild_storage, add_blocks, make, size, ensure_capacity_for,
  resize, emplace_back, pop_back, clear, reserve, resize_blocks, ptr_at, Call, resizes, emplaces,
  pops, clears, reserves, resizes_blocks, kept_or, step, run,
}

pub record IsValid {ℓ} {A : Type ℓ} (v : BlockVector A) : Type 0 where
  pub positive : 0 < v.block_size
  pub allocated : v.capacity ≡ v.blocks * v.block_size
  pub fits : length v.items ≤ v.capacity
  pub small : v.capacity < size_limit

add_blocks_lem : (rounds blocks : ℕ) → add_blocks rounds blocks ≡ blocks + rounds
unfolding add_blocks
add_blocks_lem zero blocks = omega arith
add_blocks_lem (suc rounds) blocks = omega (arith, add_blocks_lem rounds (blocks + 1))

-- Where the sum does not wrap, so many blocks hold `n` elements, and less than a block more.
blocks_for_lem :
    (n d : ℕ)
    → 0 < d
    → n + d ≤ size_limit
    → (n ≤ blocks_for n d * d) × (blocks_for n d * d < size_limit)
unfolding blocks_for
blocks_for_lem n d h small =
    let sum : (n + d + (size_limit - 1)) % size_limit ≡ n + d - 1 = omega arith in
    let whole : d * ((n + d - 1) / d) + (n + d - 1) % d ≡ n + d - 1 = div-add-mod (n + d - 1) d in
    let rest : (n + d - 1) % d < d = mod-lt (n + d - 1) h in
    let swap : d * ((n + d - 1) / d) ≡ (n + d - 1) / d * d = grind arith in
    rw sum (omega (arith, whole, rest, swap), omega (arith, whole, swap))

pub length-take-le {ℓ} : {A : Type ℓ} (n : ℕ) (xs : List A) → length (take n xs) ≤ length xs
length-take-le zero xs = omega arith
length-take-le (suc n) [] = omega arith
length-take-le (suc n) (x ∷ xs) = omega (arith, length-take-le n xs)

places_mono : (a b d : ℕ) → a ≤ b → a * d ≤ b * d
places_mono a b d h = grind arith

-- The blocks that growth leaves hold what they held, and what is asked, and their number of places
-- does not wrap.
grown_capacity :
    (n blocks d : ℕ)
    → 0 < d
    → n + d ≤ size_limit
    → blocks * d < size_limit
    → let grown = add_blocks (blocks_for n d - blocks) blocks in
      (n ≤ grown * d) × (blocks * d ≤ grown * d) × (grown * d < size_limit)
grown_capacity n blocks d h small held = rw (add_blocks_lem (blocks_for n d - blocks) blocks) (
    let k = blocks_for n d in
    let (room, bounded) = blocks_for_lem n d h small in
    let up = places_mono k (blocks + (k - blocks)) d (omega arith) in
    let old : blocks * d ≤ (blocks + (k - blocks)) * d = grind arith in
    (
      omega (arith, room, up),
      old,
      elim (Bool-cases (leb k blocks)) [
        | inl enough ↦
            let same : blocks + (k - blocks) ≡ blocks = omega (arith, leb→le k blocks enough) in
            rw same held
        | inr fewer ↦
            let same : blocks + (k - blocks) ≡ k = ground (arith, fewer) in rw same bounded
      ],
    ))

module _ {ℓ} {A : Type ℓ} where
  -- Growth keeps the elements, and leaves room for what is asked.
  pub ensure_capacity_for_lem :
      (v : BlockVector A) (required : ℕ)
      → IsValid v
      → required + v.block_size ≤ size_limit
      → IsValid (ensure_capacity_for v required)
        × (required ≤ (ensure_capacity_for v required).capacity)
        × ((ensure_capacity_for v required).items ≡ v.items)
        × ((ensure_capacity_for v required).block_size ≡ v.block_size)
  unfolding ensure_capacity_for
  ensure_capacity_for_lem v required h small = elim (Bool-cases (leb required v.capacity)) [
    | inl fits ↦ rw fits (h, leb→le required v.capacity fits, refl, refl)
    | inr full ↦
        let held : v.blocks * v.block_size < size_limit = rw⁻¹ h.allocated h.small in
        let g = grown_capacity required v.blocks v.block_size h.positive small held in
        let grown = add_blocks (blocks_for required v.block_size - v.blocks) v.blocks in
        let whole : grown * v.block_size % size_limit ≡ grown * v.block_size = mod-eq_of_lt g.2 in
        rw (full, whole)
          (
            record {
              positive = h.positive;
              allocated = refl;
              fits = omega (arith, g.1, h.fits, h.allocated);
              small = g.2;
            },
            g.0,
            refl,
            refl,
          )
  ]

  pub size-resize :
      (fresh : A) (v : BlockVector A) (n : ℕ) → size v ≤ n → size (resize fresh v n) ≡ n
  unfolding resize size
  size-resize fresh v n h =
      rw
        (
          ltb-false n (length v.items) h,
          length-append v.items (replicate (n - length v.items) fresh),
          length-replicate (n - length v.items) fresh,
        )
        (omega arith)

  pub size-reserve : (v : BlockVector A) (n : ℕ) → size (reserve v n) ≡ size v
  unfolding reserve ensure_capacity_for size
  size-reserve v n = ground arith

  pub size-resize_blocks :
      (v : BlockVector A) (n : ℕ) → size (kept_or v (resize_blocks v n)) ≡ size v
  unfolding resize_blocks size
  size-resize_blocks v n = ground arith

  resize-IsValid :
      (fresh : A) (v : BlockVector A) (n : ℕ)
      → IsValid v
      → n + v.block_size ≤ size_limit
      → IsValid (resize fresh v n)
  unfolding resize
  resize-IsValid fresh v n h asked = elim (Bool-cases (ltb n (length v.items))) [
    | inl shrinks ↦ rw shrinks (record {
      positive = h.positive;
      allocated = h.allocated;
      fits = omega (arith, length-take-le n v.items);
      small = h.small;
    })
    | inr grows ↦
        let e = ensure_capacity_for_lem v n h asked in
        rw grows (record {
          positive = e.0.positive;
          allocated = e.0.allocated;
          fits =
              rw
                (
                  length-append v.items (replicate (n - length v.items) fresh),
                  length-replicate (n - length v.items) fresh,
                )
                (room e);
          small = e.0.small;
        })
  ]
    where
      room :
          {w : BlockVector A}
          → IsValid w × (n ≤ w.capacity) × (w.items ≡ v.items) × (w.block_size ≡ v.block_size)
          → length v.items + (n - length v.items) ≤ w.capacity
      room e = omega (arith, e.0.fits, e.1, ap length e.2)

  emplace_back-IsValid :
      (v : BlockVector A) (a : A)
      → IsValid v
      → size v + 1 + v.block_size ≤ size_limit
      → IsValid (emplace_back v a)
  unfolding emplace_back size
  emplace_back-IsValid v a h asked =
      let whole : (length v.items + 1) % size_limit ≡ length v.items + 1 =
        omega (arith, h.positive, asked) in
      rw whole (
        let e = ensure_capacity_for_lem v (length v.items + 1) h asked in
        record {
          positive = e.0.positive;
          allocated = e.0.allocated;
          fits = omega (arith, e.1, length-append v.items (a ∷ []));
          small = e.0.small;
        })

  rebuilt-IsValid :
      (v : BlockVector A) (n : ℕ) → 0 < n → size v + n ≤ size_limit → IsValid (rebuild_storage v n)
  unfolding rebuild_storage size
  rebuilt-IsValid v n p asked = elim (Bool-cases (length v.items == 0)) [
    | inl e ↦ rw e (record {
      positive = p;
      allocated = omega arith;
      fits = ground (arith, e);
      small = omega arith;
    })
    | inr e ↦
        let (room, bounded) = blocks_for_lem (length v.items) n p asked in
        let whole : blocks_for (length v.items) n * n % size_limit
            ≡ blocks_for (length v.items) n * n =
          mod-eq_of_lt bounded in
        rw (e, whole) (record { positive = p; allocated = refl; fits = room; small = bounded })
  ]

  resize_blocks-IsValid :
      (v : BlockVector A) (n : ℕ)
      → IsValid v
      → size v + n ≤ size_limit
      → IsValid (kept_or v (resize_blocks v n))
  unfolding resize_blocks
  resize_blocks-IsValid v n h asked = elim (Bool-cases (n == 0)) [
    | inl z ↦ rw z h
    | inr p ↦ elim (Bool-cases (v.block_size == n)) [
      | inl same ↦ rw (p, same) h
      | inr other ↦ rw (p, other) (rebuilt-IsValid v n (ground (arith, p)) asked)
    ]
  ]

  -- What the call asks for, with a block more, is a `std::size_t`.
  unfoldable pub Fits : BlockVector A → Call A → Type 0
  unfolding size
  Fits v (resizes n) = n + v.block_size ≤ size_limit
  Fits v (emplaces a) = size v + 1 + v.block_size ≤ size_limit
  Fits v pops = Unit {0}
  Fits v clears = Unit {0}
  Fits v (reserves n) = n + v.block_size ≤ size_limit
  Fits v (resizes_blocks n) = size v + n ≤ size_limit

  unfoldable pub AllFit : A → BlockVector A → List (Call A) → Type 0
  unfolding Fits
  AllFit fresh v [] = Unit {0}
  AllFit fresh v (c ∷ cs) = Fits v c × AllFit fresh (step fresh v c) cs

  step-IsValid :
      (fresh : A) (v : BlockVector A) (c : Call A) → IsValid v → Fits v c → IsValid (step fresh v c)
  unfolding step pop_back clear reserve Fits
  step-IsValid fresh v (resizes n) h f = resize-IsValid fresh v n h f
  step-IsValid fresh v (emplaces a) h f = emplace_back-IsValid v a h f
  step-IsValid fresh v pops h f = elim (Bool-cases (length v.items == 0)) [
    | inl e ↦ rw e h
    | inr e ↦ rw e (record {
      positive = h.positive;
      allocated = h.allocated;
      fits = omega (arith, h.fits, length-take-le (length v.items - 1) v.items);
      small = h.small;
    })
  ]
  step-IsValid fresh v clears h f = record {
    positive = h.positive;
    allocated = h.allocated;
    fits = omega arith;
    small = h.small;
  }
  step-IsValid fresh v (reserves n) h f = elim (Bool-cases (leb n v.capacity)) [
    | inl e ↦ rw e h
    | inr e ↦ rw e (ensure_capacity_for_lem v n h f).0
  ]
  step-IsValid fresh v (resizes_blocks n) h f = resize_blocks-IsValid v n h f

  pub run-IsValid :
      (fresh : A) (v : BlockVector A) (cs : List (Call A))
      → IsValid v
      → AllFit fresh v cs
      → IsValid (run fresh v cs)
  unfolding run AllFit
  run-IsValid fresh v [] h f = h
  run-IsValid fresh v (c ∷ cs) h f =
      run-IsValid fresh (step fresh v c) cs (step-IsValid fresh v c h f.0) f.1

  -- After calls on a new vector of a non-zero block size, where the number of elements that each call
  -- asks for, with the block size added, is at most 2^64 (so that rounding it up does not wrap): the
  -- capacity is that of the allocated blocks, and each index below the size is addressed in an
  -- allocated block, at a place inside that block from which the index can be computed back.
  pub run-ptr_at :
      (fresh : A) (block_size : ℕ) (v : BlockVector A) (cs : List (Call A)) (i : ℕ)
      → make block_size ≡ some v
      → AllFit fresh v cs
      → i < size (run fresh v cs)
      → let w = run fresh v cs in
        (w.capacity ≡ w.blocks * w.block_size)
        × ((ptr_at w i).0 < w.blocks)
        × ((ptr_at w i).1 < w.block_size)
        × (w.block_size * (ptr_at w i).0 + (ptr_at w i).1 ≡ i)
  unfolding make size ptr_at
  run-ptr_at fresh block_size v cs i made f h =
      let valid = run-IsValid fresh v cs (ground arith) f in
      (
        valid.allocated,
        (div-lt_iff_lt-mul valid.positive).1 (omega (arith, valid.fits, valid.allocated)),
        mod-lt i valid.positive,
        div-add-mod i (run fresh v cs).block_size,
      )
