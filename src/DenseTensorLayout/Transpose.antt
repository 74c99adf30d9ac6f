-- ===== src/DenseTensorLayout/Transpose.antt =====
-- `transpose` takes permutations of the dimensions, and reads the dimensions in their order.
use orteaf.Prelude.{
  ℕ, ◌≡◌, refl, ap, subst, ◌∙◌, arith, List, [], ◌∷◌, ◌++◌, map, length, get_or, false, ◌||◌, ltb,
  ◌==◌, ==→eq, All, Absent, IsDistinct, Below, ltb→lt,
}
use orteaf.Prelude.Int.{ℤ, pos}
use orteaf.Diagnostics.{
  ok, ◌>>=◌, ◌>>◌, ok_inj, seq-ok, bind-ok, throw_if, throw_unless, throw_unless-ok, throw_if-ok,
  invalid_parameter, out_of_range,
}
use orteaf.DenseTensorLayout.{DenseTensorLayout, rank, make, contains, transpose_loop, transpose}
use orteaf.DenseTensorLayout.Address.{make-ok}

-- The dimensions of a list of sizes or strides that `perm` names.
abbrev pub pick : List ℤ → List ℕ → List ℤ
pick values perm = map (λ dim. get_or values dim (pos 0)) perm

contains-append :
    (seen : List ℕ) (dim x : ℕ) → contains (seen ++ (dim ∷ [])) x ≡ contains seen x || (dim == x)
unfolding contains
contains-append [] dim x = ground arith
contains-append (y ∷ seen) dim x = ground (arith, contains-append seen dim x)

fresh_after :
    (seen rest : List ℕ) (dim : ℕ)
    → All (λ x. contains (seen ++ (dim ∷ [])) x ≡ false) rest
    → All (λ x. contains seen x ≡ false) rest × Absent dim rest
fresh_after seen [] dim h = (tt, tt)
fresh_after seen (x ∷ rest) dim (a, h) =
    let ih = fresh_after seen rest dim h in
    let c = contains-append seen dim x in ((ground (arith, c), ih.0), (ground (arith, c), ih.1))

-- What the loop has checked and read.
abbrev Picked : DenseTensorLayout → List ℕ → List ℕ → List ℤ × List ℤ → Type 0
Picked l seen perm r =
    (r.0 ≡ pick l.shape perm)
    × (r.1 ≡ pick l.strides perm)
    × Below (rank l) perm
    × All (λ x. contains seen x ≡ false) perm
    × IsDistinct perm

transpose_loop_lem :
    (l : DenseTensorLayout) (seen perm : List ℕ) (r : List ℤ × List ℤ)
    → transpose_loop l seen perm ≡ ok r
    → Picked l seen perm r
unfolding transpose_loop
transpose_loop_lem l seen [] r e = subst (Picked l seen []) (ok_inj _ r e) (refl, refl, tt, tt, tt)
transpose_loop_lem l seen (dim ∷ perm) r e =
    let in_range = throw_unless (ltb dim (rank l)) out_of_range in
    let new = throw_if (contains seen dim) invalid_parameter in
    let rest = transpose_loop l (seen ++ (dim ∷ [])) perm in
    let keep = λ (q : List ℤ × List ℤ).
      ok (get_or l.shape dim (pos 0) ∷ q.0, get_or l.strides dim (pos 0) ∷ q.1) in
    let a = seq-ok in_range (new >> (rest >>= keep)) r e in
    let b = seq-ok new (rest >>= keep) r a.1 in
    let c = bind-ok rest keep r b.1 in
    let q = c.0 in
    let ih = transpose_loop_lem l (seen ++ (dim ∷ [])) perm q (c.1) in
    let old = fresh_after seen perm dim ih.3 in
    subst (Picked l seen (dim ∷ perm)) (ok_inj _ r (c.2)) (
      ap (λ (t : List ℤ). get_or l.shape dim (pos 0) ∷ t) (ih.0),
      ap (λ (t : List ℤ). get_or l.strides dim (pos 0) ∷ t) (ih.1),
      (ltb→lt dim (rank l) (throw_unless-ok _ out_of_range (a.0)), ih.2),
      (throw_if-ok _ invalid_parameter (b.0), old.0),
      (old.1, ih.4),
    )

-- Where `transpose` returns a layout, `perm` has as many entries as there are dimensions, each of them a
-- dimension and no two equal. The new layout has the sizes and the strides of the dimensions that
-- `perm` names, in its order, and the same offset.
pub transpose_lem :
    (l l' : DenseTensorLayout) (perm : List ℕ)
    → transpose l perm ≡ ok l'
    → (length perm ≡ rank l)
      × Below (rank l) perm
      × IsDistinct perm
      × (l'
          ≡ record { shape = pick l.shape perm; strides = pick l.strides perm; offset = l.offset })
unfolding transpose
transpose_lem l l' perm e =
    let same_rank = throw_unless (length perm == rank l) invalid_parameter in
    let loop = transpose_loop l [] perm in
    let build = λ (r : List ℤ × List ℤ). make r.0 r.1 l.offset in
    let a = seq-ok same_rank (loop >>= build) l' e in
    let b = bind-ok loop build l' a.1 in
    let p = transpose_loop_lem l [] perm (b.0) (b.1) in
    (
      ==→eq (length perm) (rank l) (throw_unless-ok _ invalid_parameter (a.0)),
      p.2,
      p.4,
      (make-ok ((b.0).0) ((b.0).1) l.offset l' (b.2)).2
          ∙ ap (λ (s : List ℤ). record { shape = s; strides = (b.0).1; offset = l.offset }) (p.0)
          ∙ ap
              (λ (s : List ℤ). record { shape = pick l.shape perm; strides = s; offset = l.offset })
              (p.1),
    )
