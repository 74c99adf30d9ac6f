-- ===== src/DenseTensorLayout/Contiguous.antt =====
-- Contiguous layouts and `reshape`.
use orteaf.Prelude.{
  ◌≡◌, ◌↔◌, inl, inr, refl, ap, sym, ◌∙◌, arith, Option, some, none, List, [], ◌∷◌, if◌then◌else◌,
  length, true, false, Bool-cases,
}
use orteaf.Prelude.Int.{ℤ, ◌*ℤ◌, eqb_ℤ, eqb_ℤ→eq, eqb_ℤ-refl}
use orteaf.Diagnostics.{ok, ◌>>=◌, seq-ok, bind-ok, throw_unless, throw_unless-ok, invalid_state}
use orteaf.DenseTensorLayout.{
  DenseTensorLayout, strides_from, make_contiguous_strides, expected_from, is_contiguous, numel,
}
use orteaf.DenseTensorLayout.Views.{
  ReshapeScan, scan_start, reshaped, reshape, resolve_shape, reshape_scan,
}
use orteaf.DenseTensorLayout.Address.{make-ok}

-- The loop of `isContiguous` succeeds on the strides that `makeContiguousStrides` writes.
expected_from-strides_from :
    (shape : List ℤ) → expected_from shape ((strides_from shape).0) ≡ some ((strides_from shape).1)
unfolding expected_from strides_from
expected_from-strides_from [] = refl
expected_from-strides_from (d ∷ ds) =
    rw (expected_from-strides_from ds, eqb_ℤ-refl ((strides_from ds).1)) refl

cons_case :
    (d s e : ℤ) (r : Option ℤ) (rest : List ℤ × ℤ) {ss : List ℤ}
    → ((x : ℤ) → r ≡ some x → (ss ≡ rest.0) × (x ≡ rest.1))
    → elim r [ none ↦ none | some x ↦ if eqb_ℤ s x then some (x *ℤ d) else none ] ≡ some e
    → (s ∷ ss ≡ rest.1 ∷ rest.0) × (e ≡ rest.1 *ℤ d)
cons_case d s e none rest ih q = absurd (ground arith)
cons_case d s e (some x) rest {ss = ss} ih q =
    let r = ih x refl in
    elim (Bool-cases (eqb_ℤ s x)) [
      | inl b ↦ ground (arith, r, eqb_ℤ→eq s x b)
      | inr b ↦ absurd (ground arith)
    ]

-- And on no others.
expected_from-some :
    (shape strides : List ℤ) (e : ℤ)
    → length shape ≡ length strides
    → expected_from shape strides ≡ some e
    → (strides ≡ (strides_from shape).0) × (e ≡ (strides_from shape).1)
unfolding expected_from strides_from
expected_from-some [] [] e h q = (refl, ground arith)
expected_from-some [] (s ∷ ss) e h q = absurd (omega arith)
expected_from-some (d ∷ ds) [] e h q = absurd (omega arith)
expected_from-some (d ∷ ds) (s ∷ ss) e h q =
    cons_case d s e (expected_from ds ss) (strides_from ds)
      (λ x p. expected_from-some ds ss x (omega arith) p) q

pub is_contiguous-some :
    (l : DenseTensorLayout)
    → is_contiguous l ≡ true
    → (e : ℤ) × (expected_from l.shape l.strides ≡ some e)
unfolding is_contiguous
is_contiguous-some l h = go (expected_from l.shape l.strides) refl h
  where
    go :
        (r : Option ℤ)
        → expected_from l.shape l.strides ≡ r
        → elim r [ none ↦ false | some e ↦ true ] ≡ true
        → (e : ℤ) × (expected_from l.shape l.strides ≡ some e)
    go none p k = absurd (ground arith)
    go (some x) p k = (x, p)

contiguous_of_strides :
    (l : DenseTensorLayout) → l.strides ≡ make_contiguous_strides l.shape → is_contiguous l ≡ true
unfolding is_contiguous
contiguous_of_strides l e =
    ap (λ (r : Option ℤ). elim r [ none ↦ false | some x ↦ true ])
      (ap (λ strides. expected_from l.shape strides) e ∙ expected_from-strides_from l.shape)

-- A layout of matching rank is contiguous exactly when its strides are those that
-- `makeContiguousStrides` gives its shape.
pub is_contiguous-make_contiguous_strides :
    (l : DenseTensorLayout)
    → length l.shape ≡ length l.strides
    → (is_contiguous l ≡ true) ↔ (l.strides ≡ make_contiguous_strides l.shape)
is_contiguous-make_contiguous_strides l h = (
  λ c. (let r = is_contiguous-some l c in (expected_from-some l.shape l.strides (r.0) h r.1).0),
  contiguous_of_strides l,
)

-- A reshaped layout is contiguous, keeps the offset, and was reshaped from a contiguous layout.
pub reshape-contiguous :
    (l l' : DenseTensorLayout) (new_shape : List ℤ)
    → reshape l new_shape ≡ ok l'
    → (is_contiguous l ≡ true) × (is_contiguous l' ≡ true) × (l'.offset ≡ l.offset)
unfolding reshape
reshape-contiguous l l' new_shape e =
    let finish = λ (s : ReshapeScan).
      resolve_shape (numel l) new_shape s >>= λ resolved. reshaped l resolved in
    let scan = reshape_scan 0 new_shape scan_start in
    let p = seq-ok (throw_unless (is_contiguous l) invalid_state) (scan >>= finish) l' e in
    let q = bind-ok scan finish l' p.1 in
    let r =
      bind-ok (resolve_shape (numel l) new_shape q.0) (λ resolved. reshaped l resolved) l' (q.2) in
    let made = (make-ok (r.0) (make_contiguous_strides r.0) l.offset l' (r.2)).2 in
    (
      throw_unless-ok _ invalid_state (p.0),
      contiguous_of_strides l' (
          ap (λ (k : DenseTensorLayout). k.strides) made
          ∙ sym (ap (λ (k : DenseTensorLayout). make_contiguous_strides k.shape) made)),
      ap (λ (k : DenseTensorLayout). k.offset) made,
    )
