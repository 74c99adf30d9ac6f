-- ===== src/DenseTensorLayout/Slice.antt =====
-- `slice` reads the elements that it names, and stays inside the shape.
use orteaf.Prelude.{
  ℕ, suc, ◌+◌, ◌-◌, ◌*◌, ◌≤◌, ◌<◌, ◌≡◌, ◌⊎◌, inl, inr, refl, ap, subst, sym, ◌∙◌, arith, List, [],
  ◌∷◌, length, head_or, tail,
}
use orteaf.Prelude.Int.{
  ℤ, pos, negsuc, pos_part, neg_part, ◌+ℤ◌, ◌-ℤ◌, ◌*ℤ◌, ◌≤ℤ◌, ◌<ℤ◌, int_laws, eq_of_parts, +ℤ-*ℤ,
  *ℤ_assoc, *ℤ-comm,
}
use orteaf.Diagnostics.{ok, ◌>>=◌, ok_inj, seq-ok, bind-ok, throw_unless, invalid_parameter}
use orteaf.DenseTensorLayout.{DenseTensorLayout, make, slice_check, slice_loop, slice}
use orteaf.DenseTensorLayout.Address.{dot, address, IsIndex, make-ok}

-- The index of the whole tensor that an index of the slice names, dimension by dimension.
unfoldable pub slice_index : List ℤ → List ℤ → List ℤ → List ℤ → List ℤ
slice_index [] starts steps index = []
slice_index (dim ∷ rest) starts steps index =
    (head_or (pos 0) starts +ℤ head_or (pos 0) index *ℤ head_or (pos 1) steps)
    ∷ slice_index rest (tail starts) (tail steps) (tail index)

regroup : (a s i p : ℤ) → a *ℤ s +ℤ i *ℤ (s *ℤ p) ≡ (a +ℤ i *ℤ p) *ℤ s
regroup a s i p =
    ap (λ t. a *ℤ s +ℤ t) (ap (λ t. i *ℤ t) (*ℤ-comm s p) ∙ sym (*ℤ_assoc i p s))
    ∙ sym (+ℤ-*ℤ a (i *ℤ p) s)

-- One dimension moves its share from the dot product to the offset.
shuffle :
    (o a s i p u v w : ℤ)
    → w +ℤ u ≡ o +ℤ a *ℤ s +ℤ v
    → w +ℤ (i *ℤ (s *ℤ p) +ℤ u) ≡ o +ℤ ((a +ℤ i *ℤ p) *ℤ s +ℤ v)
shuffle o a s i p u v w e =
    rw (← regroup a s i p) (eq_of_parts _ _ (omega (int_laws, ap pos_part e, ap neg_part e)))

slice_loop-dot :
    (shape strides starts sizes steps : List ℤ) (offset : ℤ) (r : List ℤ × List ℤ × ℤ)
    (index : List ℤ)
    → length shape ≡ length strides
    → slice_loop shape strides starts sizes steps offset ≡ ok r
    → r.2 +ℤ dot (r.1) index ≡ offset +ℤ dot strides (slice_index shape starts steps index)
unfolding slice_loop slice_index dot
slice_loop-dot [] [] starts sizes steps offset r index h e =
    subst (λ (r : List ℤ × List ℤ × ℤ). r.2 +ℤ dot (r.1) index ≡ offset +ℤ pos 0) (ok_inj _ r e)
      refl
slice_loop-dot [] (s ∷ ss) starts sizes steps offset r index h e = absurd (omega arith)
slice_loop-dot (d ∷ ds) [] starts sizes steps offset r index h e = absurd (omega arith)
slice_loop-dot (d ∷ ds) (s ∷ ss) starts sizes steps offset r index h e =
    let start = head_or (pos 0) starts in
    let step = head_or (pos 1) steps in
    let rest = slice_loop ds ss (tail starts) (tail sizes) (tail steps) (offset +ℤ start *ℤ s) in
    let p = seq-ok (slice_check d start (head_or (pos 0) sizes) step) _ r e in
    let q = bind-ok rest _ r p.1 in
    let x = q.0 in
    subst
      (λ (r : List ℤ × List ℤ × ℤ).
        r.2 +ℤ dot (r.1) index ≡ offset +ℤ dot (s ∷ ss) (slice_index (d ∷ ds) starts steps index))
      (ok_inj _ r (q.2))
      (shuffle offset start s (head_or (pos 0) index) step (dot (x.1) (tail index)) _ (x.2) (
        slice_loop-dot ds ss (tail starts) (tail sizes) (tail steps) (offset +ℤ start *ℤ s) x
          (tail index) (omega arith) (q.1)))

-- A step times an index below the size stays on this side of the last one.
forward_bound : (a i n p d : ℕ) → i < n → a + (n - 1) * p < d → a + i * p < d
forward_bound a i n p d hi h = grind arith

backward_bound : (a i n p : ℕ) → i < n → (n - 1) * p ≤ a → i * p ≤ a
backward_bound a i n p hi h = grind arith

-- What `slice_check` demands of a dimension that is not emptied.
abbrev Fits : ℤ → ℤ → ℤ → ℤ → Type 0
Fits dim start size step =
    (pos 0 ≤ℤ start)
    × (start <ℤ dim)
    × ((pos 0 <ℤ step) × (start +ℤ (size -ℤ pos 1) *ℤ step <ℤ dim)
        ⊎ (step <ℤ pos 0) × (pos 0 ≤ℤ start +ℤ (size -ℤ pos 1) *ℤ step))

slice_check-ok :
    (dim start size step : ℤ)
    → slice_check dim start size step ≡ ok tt
    → pos 0 <ℤ size
    → Fits dim start size step
unfolding slice_check
slice_check-ok dim start size step e h = ground arith

-- The elements of a slice on natural numbers.
element_forward : (a i p : ℕ) → pos a +ℤ pos i *ℤ pos p ≡ pos (a + i * p)
unfolding ◌+ℤ◌ ◌*ℤ◌
element_forward a i p = ground arith

last_backward :
    (a m p : ℕ) → 0 < m → pos 0 ≤ℤ pos a +ℤ (pos m -ℤ pos 1) *ℤ negsuc p → (m - 1) * suc p ≤ a
unfolding ◌+ℤ◌ ◌-ℤ◌ ◌*ℤ◌
last_backward a m p h k = ground arith

element_backward : (a i p : ℕ) → i * suc p ≤ a → pos a +ℤ pos i *ℤ negsuc p ≡ pos (a - i * suc p)
unfolding ◌+ℤ◌ ◌*ℤ◌
element_backward a i p h = ground arith

forward_limit :
    (a m p d : ℕ) → 0 < m → pos a +ℤ (pos m -ℤ pos 1) *ℤ pos p <ℤ pos d → a + (m - 1) * p < d
unfolding ◌+ℤ◌ ◌-ℤ◌ ◌*ℤ◌
forward_limit a m p d h k = ground arith

in_dimension :
    (dim start size step i : ℤ)
    → Fits dim start size step
    → pos 0 ≤ℤ i
    → i <ℤ size
    → (pos 0 ≤ℤ start +ℤ i *ℤ step) × (start +ℤ i *ℤ step <ℤ dim)
in_dimension (pos d) (pos a) (pos m) (pos p) (pos i) (_, _, inl f) lo hi =
    rw (element_forward a i p) (
      omega
        (arith, forward_bound a i m p d (omega arith) (forward_limit a m p d (omega arith) f.1)))
in_dimension (pos d) (pos a) (pos m) (negsuc p) (pos i) (_, f, inr g) lo hi =
    let fits : i * suc p ≤ a =
      backward_bound a i m (suc p) (omega arith) (last_backward a m p (omega arith) g.1) in
    rw (element_backward a i p fits) (omega arith)
in_dimension (pos d) (pos a) (pos m) (pos p) (pos i) (_, _, inr f) lo hi = absurd (omega arith)
in_dimension (pos d) (pos a) (pos m) (negsuc p) (pos i) (_, _, inl f) lo hi = absurd (omega arith)
in_dimension (pos d) (pos a) (negsuc m) step (pos i) f lo hi = absurd (omega arith)
in_dimension (pos d) (negsuc a) size step i f lo hi = absurd (omega arith)
in_dimension (pos d) (pos a) size step (negsuc i) f lo hi = absurd (omega arith)
in_dimension (negsuc d) (pos a) size step i f lo hi = absurd (omega arith)
in_dimension (negsuc d) (negsuc a) size step i f lo hi = absurd (omega arith)

inside :
    (d start size step : ℤ) (shape index : List ℤ) {Rest : Type 0}
    → (pos 0 <ℤ size → Fits d start size step)
    → (IsIndex shape (tail index) → Rest)
    → IsIndex (size ∷ shape) index
    → (pos 0 ≤ℤ start +ℤ head_or (pos 0) index *ℤ step)
      × (start +ℤ head_or (pos 0) index *ℤ step <ℤ d)
      × Rest
inside d start size step shape [] f rest h = elim h [ ]
inside d start size step shape (i ∷ index) f rest (lo, hi, h) =
    let p = in_dimension d start size step i (f (omega arith)) lo hi in (p.0, p.1, rest h)

slice_loop-IsIndex :
    (shape strides starts sizes steps : List ℤ) (offset : ℤ) (r : List ℤ × List ℤ × ℤ)
    (index : List ℤ)
    → slice_loop shape strides starts sizes steps offset ≡ ok r
    → IsIndex (r.0) index
    → IsIndex shape (slice_index shape starts steps index)
unfolding slice_loop slice_index
slice_loop-IsIndex [] strides starts sizes steps offset r index e h = tt
slice_loop-IsIndex (d ∷ ds) strides starts sizes steps offset r index e h =
    let start = head_or (pos 0) starts in
    let size = head_or (pos 0) sizes in
    let step = head_or (pos 1) steps in
    let rest =
      slice_loop ds (tail strides) (tail starts) (tail sizes) (tail steps)
        (offset +ℤ start *ℤ head_or (pos 0) strides) in
    let p = seq-ok (slice_check d start size step) _ r e in
    let q = bind-ok rest _ r p.1 in
    let x = q.0 in
    inside d start size step (x.0) index (slice_check-ok d start size step (p.0))
      (slice_loop-IsIndex ds (tail strides) (tail starts) (tail sizes) (tail steps) _ x (tail index)
        (q.1))
      (subst (λ (r : List ℤ × List ℤ × ℤ). IsIndex (r.0) index) (sym (ok_inj _ r (q.2))) h)

-- Where `slice` of a layout with as many strides as sizes returns a layout, each index into the
-- new shape names, by `start + index * step` in each dimension, an index into the old shape, and
-- both layouts read the same element at them.
pub slice_lem :
    (l l' : DenseTensorLayout) (starts sizes steps index : List ℤ)
    → length l.shape ≡ length l.strides
    → slice l starts sizes steps ≡ ok l'
    → IsIndex l'.shape index
    → IsIndex l.shape (slice_index l.shape starts steps index)
      × (address l' index ≡ address l (slice_index l.shape starts steps index))
unfolding slice address
slice_lem l l' starts sizes steps index same e h =
    let loop = slice_loop l.shape l.strides starts sizes steps l.offset in
    let p = seq-ok (throw_unless _ invalid_parameter) (loop >>= λ r. make r.0 r.1 r.2) l' e in
    let q = bind-ok loop (λ r. make r.0 r.1 r.2) l' p.1 in
    let r = q.0 in
    let made = (make-ok (r.0) (r.1) (r.2) l' (q.2)).2 in
    (
      slice_loop-IsIndex l.shape l.strides starts sizes steps l.offset r index (q.1)
          (subst (λ (k : DenseTensorLayout). IsIndex k.shape index) made h),
      ap (λ (k : DenseTensorLayout). k.offset +ℤ dot k.strides index) made
          ∙ slice_loop-dot l.shape l.strides starts sizes steps l.offset r index same (q.1),
    )
