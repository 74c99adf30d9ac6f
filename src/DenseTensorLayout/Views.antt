-- ===== src/DenseTensorLayout/Views.antt =====
-- `reshape`, `broadcastTo`, `squeeze` and `unsqueeze` of
-- orteaf/include/orteaf/extension/tensor/layout/dense_tensor_layout.h.
use orteaf.Prelude.{
  ℕ, zero, suc, ◌+◌, Bool, true, false, ◌||◌, not, List, [], ◌∷◌, Option, none, some, ltb, ◌==◌,
  if◌then◌else◌, length, get_or, set, replicate, head_or, tail,
}
use orteaf.Prelude.Int.{ℤ, pos, negsuc, ◌*ℤ◌, tdiv, tmod, ltb_ℤ, eqb_ℤ}
use orteaf.Diagnostics.{
  Result, ok, err, ◌>>=◌, ◌>>◌, throw_if, throw_unless, invalid_parameter, invalid_state,
  out_of_range,
}
use orteaf.DenseTensorLayout.{
  DenseTensorLayout, rank, validate_shape, make, numel, make_contiguous_strides, is_contiguous,
}
use mathlib.Core.List

-- The locals of the first loop of `reshape`; `inferred` is `inferred_index` where `has_inferred`.
pub record ReshapeScan : Type 0 where
  inferred : Option ℕ
  known_product : ℤ
  has_zero : Bool

unfoldable pub scan_inferred : ℕ → ReshapeScan → Result ReshapeScan
scan_inferred i s = elim (s.inferred) [
  | none ↦ ok (record s { inferred = some i })
  | some j ↦ err invalid_parameter
]

unfoldable pub scan_dim : ℕ → ℤ → ReshapeScan → Result ReshapeScan
scan_dim i dim s =
    if eqb_ℤ dim (negsuc 0)
    then scan_inferred i s
    else if ltb_ℤ dim (pos 0)
    then err invalid_parameter
    else if eqb_ℤ dim (pos 0)
    then ok (record s { has_zero = true })
    else ok (record s { known_product = s.known_product *ℤ dim })

unfoldable pub reshape_scan : ℕ → List ℤ → ReshapeScan → Result ReshapeScan
reshape_scan i [] s = ok s
reshape_scan i (dim ∷ rest) s = scan_dim i dim s >>= λ t. reshape_scan (i + 1) rest t

-- The checks on the element count, and `resolved_shape`.
unfoldable pub resolve_shape : ℤ → List ℤ → ReshapeScan → Result (List ℤ)
resolve_shape current new_shape s = elim (s.inferred) [
  | none ↦
      throw_unless (eqb_ℤ current (if s.has_zero then pos 0 else s.known_product)) invalid_parameter
      >> ok new_shape
  | some i ↦
      throw_if (s.has_zero) invalid_parameter
      >> throw_if (eqb_ℤ current (pos 0)) invalid_parameter
      >> throw_if
          (eqb_ℤ (s.known_product) (pos 0) || not (eqb_ℤ (tmod current (s.known_product)) (pos 0)))
          invalid_parameter
      >> ok (set new_shape i (tdiv current (s.known_product)))
]

abbrev pub scan_start : ReshapeScan
scan_start = record { inferred = none; known_product = pos 1; has_zero = false }

-- The end of `reshape`, with `resolved_shape`.
abbrev pub reshaped : DenseTensorLayout → List ℤ → Result DenseTensorLayout
reshaped l resolved = make resolved (make_contiguous_strides resolved) l.offset

unfoldable pub reshape : DenseTensorLayout → List ℤ → Result DenseTensorLayout
reshape l new_shape =
    throw_unless (is_contiguous l) invalid_state
    >> (reshape_scan 0 new_shape scan_start >>= λ s.
        (resolve_shape (numel l) new_shape s >>= λ resolved. reshaped l resolved))

-- The stride of one dimension of `broadcastTo`.
unfoldable pub broadcast_stride : ℤ → ℤ → ℤ → Result ℤ
broadcast_stride old_dim old_stride new_dim =
    if eqb_ℤ old_dim new_dim
    then ok old_stride
    else if eqb_ℤ old_dim (pos 1)
    then ok (pos 0)
    else err invalid_parameter

-- The loop of `broadcastTo` from the last dimension: all lists are reversed. Where the old layout
-- has no dimension left, it counts as one of size 1 and stride 0.
unfoldable pub broadcast_loop : List ℤ → List ℤ → List ℤ → Result (List ℤ)
broadcast_loop shape strides [] = ok []
broadcast_loop shape strides (new_dim ∷ rest) =
    broadcast_stride (head_or (pos 1) shape) (head_or (pos 0) strides) new_dim >>= λ stride.
    broadcast_loop (tail shape) (tail strides) rest >>= λ r. ok (stride ∷ r)

unfoldable pub broadcast_to : DenseTensorLayout → List ℤ → Result DenseTensorLayout
broadcast_to l new_shape =
    validate_shape new_shape
    >> throw_if (ltb (length new_shape) (rank l)) invalid_parameter
    >> (broadcast_loop (List.reverse (l.shape)) (List.reverse (l.strides)) (List.reverse new_shape)
        >>= λ strides. make new_shape (List.reverse strides) l.offset)

-- The loop of `squeeze()`.
unfoldable pub squeeze_loop : List ℤ → List ℤ → List ℤ × List ℤ
squeeze_loop [] strides = ([], [])
squeeze_loop (dim ∷ rest) strides =
    let r = squeeze_loop rest (tail strides) in
    if eqb_ℤ dim (pos 1) then r else (dim ∷ r.0, head_or (pos 0) strides ∷ r.1)

unfoldable pub squeeze : DenseTensorLayout → Result DenseTensorLayout
squeeze l = let r = squeeze_loop l.shape l.strides in make r.0 r.1 l.offset

-- The loop of `squeeze(dims)` that fills `remove`.
unfoldable pub mark_loop : List ℤ → List ℕ → List Bool → Result (List Bool)
mark_loop shape [] remove = ok remove
mark_loop shape (dim ∷ dims) remove =
    throw_unless (ltb dim (length shape)) out_of_range
    >> throw_if (get_or remove dim false) invalid_parameter
    >> throw_unless (eqb_ℤ (get_or shape dim (pos 0)) (pos 1)) invalid_parameter
    >> mark_loop shape dims (set remove dim true)

-- The loop of `squeeze(dims)` that keeps the other dimensions.
unfoldable pub keep_loop : List ℤ → List ℤ → List Bool → List ℤ × List ℤ
keep_loop [] strides remove = ([], [])
keep_loop (dim ∷ rest) strides remove =
    let r = keep_loop rest (tail strides) (tail remove) in
    if head_or false remove then r else (dim ∷ r.0, head_or (pos 0) strides ∷ r.1)

unfoldable pub squeeze_dims : DenseTensorLayout → List ℕ → Result DenseTensorLayout
squeeze_dims l dims = mark_loop l.shape dims (replicate (rank l) false) >>= λ remove.
    (let r = keep_loop l.shape l.strides remove in make r.0 r.1 l.offset)

-- The loop of `unsqueeze` from index `i` on, `count` more times.
unfoldable pub unsqueeze_loop : DenseTensorLayout → ℕ → ℕ → ℕ → ℕ → List ℤ × List ℤ
unsqueeze_loop l dim i old_index zero = ([], [])
unsqueeze_loop l dim i old_index (suc count) =
    let r = unsqueeze_loop l dim (i + 1) (if i == dim then old_index else old_index + 1) count in
    let old_dim = get_or l.shape old_index (pos 0) in
    let old_stride = get_or l.strides old_index (pos 0) in
    if i == dim
    then (pos 1 ∷ r.0, (if ltb old_index (rank l) then old_stride *ℤ old_dim else pos 1) ∷ r.1)
    else (old_dim ∷ r.0, old_stride ∷ r.1)

unfoldable pub unsqueeze : DenseTensorLayout → ℕ → Result DenseTensorLayout
unsqueeze l dim =
    throw_if (ltb (rank l) dim) out_of_range
    >> (let r = unsqueeze_loop l dim 0 0 (rank l + 1) in make r.0 r.1 l.offset)
