-- ===== src/DenseTensorLayout/Squeeze.antt =====
-- `squeeze` drops dimensions of size 1 and reads the same elements.
use orteaf.Prelude.{
  ◌≡◌, refl, ap, subst, sym, ◌∙◌, arith, List, [], ◌∷◌, length, head_or, tail, if◌then◌else◌,
  Bool-cases, inl, inr,
}
use orteaf.Prelude.Int.{ℤ, pos, ◌+ℤ◌, ◌*ℤ◌, eqb_ℤ, eqb_ℤ→eq, ◌≤ℤ◌, ◌<ℤ◌, zero-*ℤ, zero-+ℤ}
use orteaf.Diagnostics.{ok}
use orteaf.DenseTensorLayout.{DenseTensorLayout}
use orteaf.DenseTensorLayout.Views.{squeeze, squeeze_loop}
use orteaf.DenseTensorLayout.Address.{dot, address, IsIndex, make-ok}

-- The entries of an index at the dimensions that `squeeze` keeps.
unfoldable pub squeeze_index : List ℤ → List ℤ → List ℤ
squeeze_index [] index = []
squeeze_index (dim ∷ shape) index =
    let rest = squeeze_index shape (tail index) in
    if eqb_ℤ dim (pos 1) then rest else head_or (pos 0) index ∷ rest

-- An index into a dimension of size 1 is 0.
only_zero : (dim i : ℤ) → dim ≡ pos 1 → pos 0 ≤ℤ i → i <ℤ dim → i ≡ pos 0
only_zero dim i e lo hi = ground (arith, e)

squeeze_loop-dot :
    (shape strides index : List ℤ)
    → length shape ≡ length strides
    → IsIndex shape index
    → IsIndex ((squeeze_loop shape strides).0) (squeeze_index shape index)
      × (dot ((squeeze_loop shape strides).1) (squeeze_index shape index) ≡ dot strides index)
unfolding squeeze_loop squeeze_index dot
squeeze_loop-dot [] [] [] h k = (tt, refl)
squeeze_loop-dot [] [] (i ∷ index) h k = elim k [ ]
squeeze_loop-dot [] (s ∷ ss) index h k = absurd (omega arith)
squeeze_loop-dot (d ∷ ds) [] index h k = absurd (omega arith)
squeeze_loop-dot (d ∷ ds) (s ∷ ss) [] h k = elim k [ ]
squeeze_loop-dot (d ∷ ds) (s ∷ ss) (i ∷ index) h (lo, hi, k) =
    let ih = squeeze_loop-dot ds ss index (omega arith) k in
    elim (Bool-cases (eqb_ℤ d (pos 1))) [
      | inl b ↦ rw b (
        ih.0,
        ih.1
            ∙ sym (zero-+ℤ (dot ss index))
            ∙ ap (λ t. t +ℤ dot ss index)
                (sym (zero-*ℤ s)
                  ∙ ap (λ t. t *ℤ s) (sym (only_zero d i (eqb_ℤ→eq d (pos 1) b) lo hi))),
      )
      | inr b ↦ rw b ((lo, hi, ih.0), ap (λ t. i *ℤ s +ℤ t) ih.1)
    ]

-- Where `squeeze` of a layout with as many strides as sizes returns a layout, each index into
-- the old shape, with the entries at the dimensions of size 1 left out, is an index into the new
-- shape, and both layouts read the same element at them.
pub squeeze_lem :
    (l l' : DenseTensorLayout) (index : List ℤ)
    → length l.shape ≡ length l.strides
    → squeeze l ≡ ok l'
    → IsIndex l.shape index
    → IsIndex l'.shape (squeeze_index l.shape index)
      × (address l' (squeeze_index l.shape index) ≡ address l index)
unfolding squeeze address
squeeze_lem l l' index same e h =
    let r = squeeze_loop l.shape l.strides in
    let made = (make-ok (r.0) (r.1) l.offset l' e).2 in
    let s = squeeze_loop-dot l.shape l.strides index same h in
    (
      subst (λ (k : DenseTensorLayout). IsIndex k.shape (squeeze_index l.shape index)) (sym made)
          (s.0),
      ap (λ (k : DenseTensorLayout). k.offset +ℤ dot k.strides (squeeze_index l.shape index)) made
          ∙ ap (λ t. l.offset +ℤ t) s.1,
    )
