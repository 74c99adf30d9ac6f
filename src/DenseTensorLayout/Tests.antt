-- ===== src/DenseTensorLayout/Tests.antt =====
-- Layouts of a matrix.
use orteaf.Prelude.{ℕ, length, Below, IsDistinct, ◌≡◌, ◌↔◌, refl, arith, true, [], ◌∷◌}
use orteaf.Prelude.Int.{pos, negsuc, ◌+ℤ◌, ◌-ℤ◌, ◌*ℤ◌, tdiv, tmod}
use orteaf.Diagnostics.{ok, err, invalid_parameter}
use orteaf.DenseTensorLayout.{
  rank, DenseTensorLayout, validate_shape, strides_from, make_contiguous_strides, contiguous,
  is_contiguous, expected_from, numel_from, contains, transpose_loop, transpose, slice_check,
  slice_loop, slice,
}
use orteaf.DenseTensorLayout.Views.{
  reshape, reshape_scan, scan_dim, scan_inferred, resolve_shape, broadcast_stride, broadcast_loop,
  broadcast_to, squeeze_loop, squeeze, mark_loop, keep_loop, squeeze_dims, unsqueeze_loop,
  unsqueeze,
}
use orteaf.DenseTensorLayout.Address.{IsIndex, address}
use orteaf.DenseTensorLayout.Squeeze.{squeeze_index, squeeze_lem}
use orteaf.DenseTensorLayout.Transpose.{pick, transpose_lem}
use orteaf.DenseTensorLayout.Slice.{slice_index, slice_lem}
use orteaf.DenseTensorLayout.Contiguous.{is_contiguous-make_contiguous_strides, reshape-contiguous}

-- Two rows of six.
abbrev matrix : DenseTensorLayout
matrix = record { shape = pos 2 ∷ pos 6 ∷ []; strides = pos 6 ∷ pos 1 ∷ []; offset = pos 0 }

contiguous-matrix : contiguous (pos 2 ∷ pos 6 ∷ []) ≡ ok matrix
unfolding contiguous validate_shape strides_from ◌*ℤ◌
contiguous-matrix = refl

transposed :
    transpose matrix (1 ∷ 0 ∷ [])
    ≡ ok (record { shape = pos 6 ∷ pos 2 ∷ []; strides = pos 1 ∷ pos 6 ∷ []; offset = pos 0 })
unfolding transpose transpose_loop contains validate_shape
transposed = refl

repeated_axis : transpose matrix (1 ∷ 1 ∷ []) ≡ err invalid_parameter
unfolding transpose transpose_loop contains
repeated_axis = refl

broadcast_rows :
    broadcast_to (record matrix { shape = pos 1 ∷ pos 6 ∷ [] }) (pos 3 ∷ pos 4 ∷ pos 6 ∷ [])
    ≡ ok (record {
      shape = pos 3 ∷ pos 4 ∷ pos 6 ∷ [];
      strides = pos 0 ∷ pos 0 ∷ pos 1 ∷ [];
      offset = pos 0;
    })
unfolding broadcast_to broadcast_loop broadcast_stride validate_shape
broadcast_rows = refl

squeezed :
    squeeze (record matrix { shape = pos 1 ∷ pos 6 ∷ [] })
    ≡ ok (record { shape = pos 6 ∷ []; strides = pos 1 ∷ []; offset = pos 0 })
unfolding squeeze squeeze_loop validate_shape
squeezed = refl

squeezed_first :
    squeeze_dims (record matrix { shape = pos 1 ∷ pos 6 ∷ [] }) (0 ∷ [])
    ≡ ok (record { shape = pos 6 ∷ []; strides = pos 1 ∷ []; offset = pos 0 })
unfolding squeeze_dims mark_loop keep_loop validate_shape
squeezed_first = refl

unsqueezed :
    unsqueeze matrix 1
    ≡ ok (record {
      shape = pos 2 ∷ pos 1 ∷ pos 6 ∷ [];
      strides = pos 6 ∷ pos 6 ∷ pos 1 ∷ [];
      offset = pos 0;
    })
unfolding unsqueeze unsqueeze_loop validate_shape ◌*ℤ◌
unsqueezed = refl

-- The columns of the matrix backwards, from the last one, two apart.
abbrev backwards : DenseTensorLayout
backwards = record { shape = pos 2 ∷ pos 3 ∷ []; strides = pos 6 ∷ negsuc 1 ∷ []; offset = pos 5 }

slices_backwards :
    slice matrix (pos 0 ∷ pos 5 ∷ []) (pos 2 ∷ pos 3 ∷ []) (pos 1 ∷ negsuc 1 ∷ []) ≡ ok backwards
unfolding slice slice_loop slice_check validate_shape ◌+ℤ◌ ◌-ℤ◌ ◌*ℤ◌
slices_backwards = refl

slice_lem_example :
    IsIndex matrix.shape
      (slice_index matrix.shape (pos 0 ∷ pos 5 ∷ []) (pos 1 ∷ negsuc 1 ∷ []) (pos 1 ∷ pos 2 ∷ []))
    × (address backwards (pos 1 ∷ pos 2 ∷ [])
        ≡ address matrix (
            slice_index matrix.shape
              (pos 0 ∷ pos 5 ∷ [])
              (pos 1 ∷ negsuc 1 ∷ [])
              (pos 1 ∷ pos 2 ∷ [])))
slice_lem_example =
    slice_lem matrix backwards (pos 0 ∷ pos 5 ∷ []) (pos 2 ∷ pos 3 ∷ []) (pos 1 ∷ negsuc 1 ∷ [])
      (pos 1 ∷ pos 2 ∷ []) refl slices_backwards (omega arith)

is_contiguous-make_contiguous_strides_example :
    (is_contiguous backwards ≡ true) ↔ (backwards.strides ≡ make_contiguous_strides backwards.shape)
is_contiguous-make_contiguous_strides_example = is_contiguous-make_contiguous_strides backwards refl

abbrev tall : DenseTensorLayout
tall = record { shape = pos 4 ∷ pos 3 ∷ []; strides = pos 3 ∷ pos 1 ∷ []; offset = pos 0 }

reshapes : reshape matrix (negsuc 0 ∷ pos 3 ∷ []) ≡ ok tall
unfolding reshape is_contiguous expected_from reshape_scan scan_dim scan_inferred resolve_shape
    strides_from validate_shape numel_from tdiv tmod ◌*ℤ◌
reshapes = refl

reshape-contiguous_example :
    (is_contiguous matrix ≡ true) × (is_contiguous tall ≡ true) × (tall.offset ≡ matrix.offset)
reshape-contiguous_example = reshape-contiguous matrix tall (negsuc 0 ∷ pos 3 ∷ []) reshapes

abbrev row : DenseTensorLayout
row = record { shape = pos 6 ∷ []; strides = pos 1 ∷ []; offset = pos 0 }

squeeze_lem_example :
    IsIndex row.shape (squeeze_index (pos 1 ∷ pos 6 ∷ []) (pos 0 ∷ pos 4 ∷ []))
    × (address row (squeeze_index (pos 1 ∷ pos 6 ∷ []) (pos 0 ∷ pos 4 ∷ []))
        ≡ address (record matrix { shape = pos 1 ∷ pos 6 ∷ [] }) (pos 0 ∷ pos 4 ∷ []))
squeeze_lem_example =
    squeeze_lem (record matrix { shape = pos 1 ∷ pos 6 ∷ [] }) row (pos 0 ∷ pos 4 ∷ []) refl
      squeezed (omega arith)

abbrev turned : DenseTensorLayout
turned = record { shape = pos 6 ∷ pos 2 ∷ []; strides = pos 1 ∷ pos 6 ∷ []; offset = pos 0 }

transpose_lem_example :
    (length {A = ℕ} (1 ∷ 0 ∷ []) ≡ rank matrix)
    × Below (rank matrix) (1 ∷ 0 ∷ [])
    × IsDistinct (1 ∷ 0 ∷ [])
    × (turned ≡ record {
      shape = pick matrix.shape (1 ∷ 0 ∷ []);
      strides = pick matrix.strides (1 ∷ 0 ∷ []);
      offset = matrix.offset;
    })
transpose_lem_example = transpose_lem matrix turned (1 ∷ 0 ∷ []) transposed
