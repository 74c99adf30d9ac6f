-- ===== src/KernelKey/Packing.antt =====
-- Packing and unpacking a kernel key are inverse to each other.
use Prim.Native.Nat.{bit_or}
use orteaf.Prelude.{ℕ, ◌+◌, ◌*◌, ◌/◌, ◌%◌, ◌^◌, ◌<◌, ◌≡◌, ap, ◌∙◌, arith}
use orteaf.Prelude.Bits.{bit_or-add, bit_and-mask}
use orteaf.KernelKey.{
  make, get_version, get_op, get_architecture, get_layout, get_dtype, get_variant,
}

-- The key as a number in mixed radix.
abbrev packed : ℕ → ℕ → ℕ → ℕ → ℕ → ℕ → ℕ
packed op architecture layout dtype variant version =
    version % 2 ^ 4 * 2 ^ 60
    + variant % 2 ^ 8 * 2 ^ 52
    + layout % 2 ^ 8 * 2 ^ 44
    + architecture % 2 ^ 16 * 2 ^ 28
    + op % 2 ^ 16 * 2 ^ 12
    + dtype % 2 ^ 12

-- A field below the fields packed so far.
or_field : (k hi lo whole : ℕ) → whole ≡ hi * 2 ^ k → lo < 2 ^ k → bit_or whole lo ≡ whole + lo
or_field k hi lo whole e h = rw e (bit_or-add k hi lo h)

or_fields :
    (ver var lay arch op dt : ℕ)
    → ver < 2 ^ 4
    → var < 2 ^ 8
    → lay < 2 ^ 8
    → arch < 2 ^ 16
    → op < 2 ^ 16
    → dt < 2 ^ 12
    → bit_or
        (bit_or
          (bit_or
            (bit_or
              (bit_or (ver * 2 ^ 60 % 2 ^ 64) (var * 2 ^ 52 % 2 ^ 64))
              (lay * 2 ^ 44 % 2 ^ 64))
            (arch * 2 ^ 28 % 2 ^ 64))
          (op * 2 ^ 12 % 2 ^ 64))
        (dt * 2 ^ 0 % 2 ^ 64)
      ≡ ver * 2 ^ 60 + var * 2 ^ 52 + lay * 2 ^ 44 + arch * 2 ^ 28 + op * 2 ^ 12 + dt
or_fields ver var lay arch op dt h1 h2 h3 h4 h5 h6 =
    let f1 =
      or_field 60 ver (var * 2 ^ 52 % 2 ^ 64) (ver * 2 ^ 60 % 2 ^ 64) (omega arith) (omega arith) in
    let s1 : ℕ = ver * 2 ^ 60 + var * 2 ^ 52 in
    let f2 =
      or_field 52 (ver * 2 ^ 8 + var) (lay * 2 ^ 44 % 2 ^ 64) s1 (omega arith) (omega arith) in
    let s2 : ℕ = s1 + lay * 2 ^ 44 in
    let f3 =
      or_field 44 ((ver * 2 ^ 8 + var) * 2 ^ 8 + lay) (arch * 2 ^ 28 % 2 ^ 64) s2 (omega arith)
        (omega arith) in
    let s3 : ℕ = s2 + arch * 2 ^ 28 in
    let f4 =
      or_field 28 (((ver * 2 ^ 8 + var) * 2 ^ 8 + lay) * 2 ^ 16 + arch) (op * 2 ^ 12 % 2 ^ 64) s3
        (omega arith) (omega arith) in
    let s4 : ℕ = s3 + op * 2 ^ 12 in
    let f5 =
      or_field 12 ((((ver * 2 ^ 8 + var) * 2 ^ 8 + lay) * 2 ^ 16 + arch) * 2 ^ 16 + op)
        (dt * 2 ^ 0 % 2 ^ 64) s4 (omega arith) (omega arith) in
    ap
      (λ x.
        bit_or
          (bit_or (bit_or (bit_or x (lay * 2 ^ 44 % 2 ^ 64)) (arch * 2 ^ 28 % 2 ^ 64))
            (op * 2 ^ 12 % 2 ^ 64))
          (dt * 2 ^ 0 % 2 ^ 64))
      (f1 ∙ (let e : ver * 2 ^ 60 % 2 ^ 64 + var * 2 ^ 52 % 2 ^ 64 ≡ s1 = omega arith in e))
    ∙ ap
        (λ x.
          bit_or (bit_or (bit_or x (arch * 2 ^ 28 % 2 ^ 64)) (op * 2 ^ 12 % 2 ^ 64))
            (dt * 2 ^ 0 % 2 ^ 64))
        (f2 ∙ (let e : s1 + lay * 2 ^ 44 % 2 ^ 64 ≡ s2 = omega arith in e))
    ∙ ap (λ x. bit_or (bit_or x (op * 2 ^ 12 % 2 ^ 64)) (dt * 2 ^ 0 % 2 ^ 64))
        (f3 ∙ (let e : s2 + arch * 2 ^ 28 % 2 ^ 64 ≡ s3 = omega arith in e))
    ∙ ap (λ x. bit_or x (dt * 2 ^ 0 % 2 ^ 64))
        (f4 ∙ (let e : s3 + op * 2 ^ 12 % 2 ^ 64 ≡ s4 = omega arith in e))
    ∙ f5
    ∙ omega arith

pub make-packed :
    (op architecture layout dtype variant version : ℕ)
    → make op architecture layout dtype variant version
      ≡ packed op architecture layout dtype variant version
unfolding make
make-packed op architecture layout dtype variant version =
    rw
      (
        bit_and-mask 4 version,
        bit_and-mask 8 variant,
        bit_and-mask 8 layout,
        bit_and-mask 16 architecture,
        bit_and-mask 16 op,
        bit_and-mask 12 dtype,
      )
      (or_fields (version % 2 ^ 4) (variant % 2 ^ 8) (layout % 2 ^ 8) (architecture % 2 ^ 16)
        (op % 2 ^ 16) (dtype % 2 ^ 12) (omega arith) (omega arith) (omega arith) (omega arith)
        (omega arith) (omega arith))

-- Each getter returns the field that `make` was given, cut to the width of its place in the key.
pub get-make :
    (op architecture layout dtype variant version : ℕ)
    → let key = make op architecture layout dtype variant version in
      (get_op key ≡ op % 2 ^ 16)
      × (get_architecture key ≡ architecture % 2 ^ 16)
      × (get_layout key ≡ layout % 2 ^ 8)
      × (get_dtype key ≡ dtype % 2 ^ 12)
      × (get_variant key ≡ variant % 2 ^ 8)
      × (get_version key ≡ version % 2 ^ 4)
unfolding get_op get_architecture get_layout get_dtype get_variant get_version
get-make op architecture layout dtype variant version =
    let key = packed op architecture layout dtype variant version in
    rw
      (
        make-packed op architecture layout dtype variant version,
        bit_and-mask 16 (key / 2 ^ 12),
        bit_and-mask 16 (key / 2 ^ 28),
        bit_and-mask 8 (key / 2 ^ 44),
        bit_and-mask 12 (key / 2 ^ 0),
        bit_and-mask 8 (key / 2 ^ 52),
        bit_and-mask 4 (key / 2 ^ 60),
      )
      (omega arith, omega arith, omega arith, omega arith, omega arith, omega arith)

-- A key of 64 bits is the one packed from its own fields.
pub make-get :
    (key : ℕ)
    → key < 2 ^ 64
    → make
        (get_op key)
        (get_architecture key)
        (get_layout key)
        (get_dtype key)
        (get_variant key)
        (get_version key)
      ≡ key
unfolding get_op get_architecture get_layout get_dtype get_variant get_version
make-get key h =
    make-packed (get_op key) (get_architecture key) (get_layout key) (get_dtype key)
      (get_variant key) (get_version key)
    ∙ rw
        (
          bit_and-mask 16 (key / 2 ^ 12),
          bit_and-mask 16 (key / 2 ^ 28),
          bit_and-mask 8 (key / 2 ^ 44),
          bit_and-mask 12 (key / 2 ^ 0),
          bit_and-mask 8 (key / 2 ^ 52),
          bit_and-mask 4 (key / 2 ^ 60),
        )
        (omega arith)
