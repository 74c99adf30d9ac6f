-- ===== src/DenseTensorLayout/Address.antt =====
-- The element that a layout reads at an index, and what the constructor of a layout returns.
use orteaf.Prelude.{◌≡◌, sym, List, [], ◌∷◌, ◌==◌, length, head_or, tail, ==→eq}
use orteaf.Prelude.Int.{ℤ, pos, ◌+ℤ◌, ◌*ℤ◌, ◌≤ℤ◌, ◌<ℤ◌}
use orteaf.Diagnostics.{ok, ◌>>◌, ok_inj, seq-ok, throw_unless, throw_unless-ok, invalid_parameter}
use orteaf.DenseTensorLayout.{DenseTensorLayout, validate_shape, make}

-- The sum of the indices times the strides; an index that is missing counts as 0.
unfoldable pub dot : List ℤ → List ℤ → ℤ
dot [] index = pos 0
dot (stride ∷ strides) index = head_or (pos 0) index *ℤ stride +ℤ dot strides (tail index)

unfoldable pub address : DenseTensorLayout → List ℤ → ℤ
address l index = l.offset +ℤ dot l.strides index

pub make-ok :
    (shape strides : List ℤ) (offset : ℤ) (l : DenseTensorLayout)
    → make shape strides offset ≡ ok l
    → (validate_shape shape ≡ ok tt)
      × (length shape ≡ length strides)
      × (l ≡ record { shape = shape; strides = strides; offset = offset })
make-ok shape strides offset l e =
    let built : DenseTensorLayout = record { shape = shape; strides = strides; offset = offset } in
    let same_rank = throw_unless (length shape == length strides) invalid_parameter in
    let p = seq-ok (validate_shape shape) (same_rank >> ok built) l e in
    let q = seq-ok same_rank (ok built) l p.1 in
    (
      p.0,
      ==→eq (length shape) (length strides) (throw_unless-ok _ invalid_parameter (q.0)),
      sym (ok_inj built l q.1),
    )

-- An index into a shape: one entry for each dimension, from 0 up to its size.
abbrev pub IsIndex : List ℤ → List ℤ → Type 0
IsIndex [] [] = Unit
IsIndex [] (i ∷ index) = ⊥
IsIndex (dim ∷ shape) [] = ⊥
IsIndex (dim ∷ shape) (i ∷ index) = (pos 0 ≤ℤ i) × (i <ℤ dim) × IsIndex shape index
