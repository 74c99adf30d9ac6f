-- ===== src/DenseTensorLayout.antt =====
-- Shape, strides and offset of a strided tensor, and its views:
-- orteaf/include/orteaf/extension/tensor/layout/dense_tensor_layout.h. A `Dim` is an integer without
-- bounds: the products of a shape are taken to fit `std::int64_t`, where overflow is undefined. A loop
-- over dimensions is recursion on the lists that it reads, and a missing entry is never read once the
-- lengths are checked.
pub mod Views
pub mod Address
pub mod Contiguous
pub mod Slice
pub mod Squeeze
pub mod Transpose
mod Tests
use orteaf.Prelude.{
  ℕ, zero, suc, ◌+◌, ◌-◌, Bool, true, false, not, ◌&&◌, ◌||◌, List, [], ◌∷◌, ◌++◌, Option, none,
  some, ltb, ◌==◌, if◌then◌else◌, length, get_or, set, replicate, head_or, tail,
}
use orteaf.Prelude.Int.{
  ℤ, pos, negsuc, pos_part, neg_part, nat_abs, sub_ℕ, ◌+ℤ◌, ◌-ℤ◌, ◌*ℤ◌, tdiv, tmod, ltb_ℤ, eqb_ℤ,
}
use orteaf.Diagnostics.{
  Result, ok, err, ◌>>=◌, ◌>>◌, throw_if, throw_unless, Errc, invalid_parameter, invalid_state,
  out_of_range,
}
use mathlib.Core.List

pub record DenseTensorLayout : Type 0 where
  shape : List ℤ
  strides : List ℤ
  offset : ℤ

abbrev pub rank : DenseTensorLayout → ℕ
rank l = length l.shape

unfoldable pub validate_shape : List ℤ → Result (Unit {0})
validate_shape [] = ok tt
validate_shape (dim ∷ rest) = throw_if (ltb_ℤ dim (pos 0)) invalid_parameter >> validate_shape rest

-- The constructor.
abbrev pub make : List ℤ → List ℤ → ℤ → Result DenseTensorLayout
make shape strides offset =
    validate_shape shape
    >> throw_unless (length shape == length strides) invalid_parameter
    >> ok (record { shape = shape; strides = strides; offset = offset })

-- `numelOf`, with the running product.
unfoldable pub numel_from : ℤ → List ℤ → ℤ
numel_from total [] = total
numel_from total (dim ∷ rest) =
    let product = numel_from (total *ℤ dim) rest in if eqb_ℤ dim (pos 0) then pos 0 else product

abbrev pub numel_of : List ℤ → ℤ
numel_of shape = numel_from (pos 1) shape

abbrev pub numel : DenseTensorLayout → ℤ
numel l = numel_of l.shape

-- The loop of `makeContiguousStrides` from the last dimension: the strides, and `stride` after it.
unfoldable pub strides_from : List ℤ → List ℤ × ℤ
strides_from [] = ([], pos 1)
strides_from (dim ∷ rest) = let r = strides_from rest in (r.1 ∷ r.0, r.1 *ℤ dim)

abbrev pub make_contiguous_strides : List ℤ → List ℤ
make_contiguous_strides shape = (strides_from shape).0

unfoldable pub contiguous : List ℤ → Result DenseTensorLayout
contiguous shape = validate_shape shape >> make shape (make_contiguous_strides shape) (pos 0)

-- The loop of `isContiguous` from the last dimension: `expected` after it, or `none` for `return false`.
unfoldable pub expected_from : List ℤ → List ℤ → Option ℤ
expected_from [] strides = some (pos 1)
expected_from (dim ∷ rest) strides = elim (expected_from rest (tail strides)) [
  | none ↦ none
  | some expected ↦
      if eqb_ℤ (head_or (pos 0) strides) expected then some (expected *ℤ dim) else none
]

unfoldable pub is_contiguous : DenseTensorLayout → Bool
is_contiguous l = elim (expected_from l.shape l.strides) [ none ↦ false | some e ↦ true ]

-- Whether `dim` is among the entries before it.
unfoldable pub contains : List ℕ → ℕ → Bool
contains [] dim = false
contains (x ∷ xs) dim = (x == dim) || contains xs dim

-- The loop of `transpose`, with the entries of `perm` that it has passed.
unfoldable pub transpose_loop : DenseTensorLayout → List ℕ → List ℕ → Result (List ℤ × List ℤ)
transpose_loop l seen [] = ok ([], [])
transpose_loop l seen (dim ∷ perm) =
    throw_unless (ltb dim (rank l)) out_of_range
    >> throw_if (contains seen dim) invalid_parameter
    >> (transpose_loop l (seen ++ (dim ∷ [])) perm >>= λ r.
        ok (get_or l.shape dim (pos 0) ∷ r.0, get_or l.strides dim (pos 0) ∷ r.1))

unfoldable pub transpose : DenseTensorLayout → List ℕ → Result DenseTensorLayout
transpose l perm =
    throw_unless (length perm == rank l) invalid_parameter
    >> (transpose_loop l [] perm >>= λ r. make r.0 r.1 l.offset)

-- The checks of `slice` on one dimension.
unfoldable pub slice_check : ℤ → ℤ → ℤ → ℤ → Result (Unit {0})
slice_check dim start size step =
    let last = start +ℤ (size -ℤ pos 1) *ℤ step in
    throw_if (ltb_ℤ start (pos 0) || ltb_ℤ dim start) out_of_range
    >> throw_if (ltb_ℤ size (pos 0)) invalid_parameter
    >> throw_if (eqb_ℤ step (pos 0)) invalid_parameter
    >> (if eqb_ℤ size (pos 0)
        then ok tt
        else (throw_unless (ltb_ℤ start dim) out_of_range
            >> throw_if (if ltb_ℤ (pos 0) step then not (ltb_ℤ last dim) else ltb_ℤ last (pos 0))
                out_of_range))

-- The loop of `slice`: the new shape, strides and offset. Empty `steps` stand for steps of 1.
unfoldable pub slice_loop :
    List ℤ → List ℤ → List ℤ → List ℤ → List ℤ → ℤ → Result (List ℤ × List ℤ × ℤ)
slice_loop [] strides starts sizes steps offset = ok ([], [], offset)
slice_loop (dim ∷ rest) strides starts sizes steps offset =
    let stride = head_or (pos 0) strides in
    let start = head_or (pos 0) starts in
    let size = head_or (pos 0) sizes in
    let step = head_or (pos 1) steps in
    slice_check dim start size step
    >> (slice_loop rest (tail strides) (tail starts) (tail sizes) (tail steps)
          (offset +ℤ start *ℤ stride)
        >>= λ r. ok (size ∷ r.0, (stride *ℤ step) ∷ r.1, r.2))

unfoldable pub slice : DenseTensorLayout → List ℤ → List ℤ → List ℤ → Result DenseTensorLayout
slice l starts sizes steps =
    throw_unless
      ((length starts == rank l)
        && (length sizes == rank l)
        && ((length steps == 0) || (length steps == rank l)))
      invalid_parameter
    >> (slice_loop l.shape l.strides starts sizes steps l.offset >>= λ r. make r.0 r.1 r.2)
