-- ===== src/Diagnostics.antt =====
-- Error codes and failing calls: orteaf/include/orteaf/internal/diagnostics/error/error.h and
-- error_macros.h. `throwError` ends a call, so a call that may throw returns a `Result`.
use orteaf.Prelude.{◌⊎◌, inl, inr, Bool, true, false, ◌≡◌, refl, arith}

-- `OrteafErrc`.
pub data Errc : Type 0 where
  success : Errc
  unknown : Errc
  invalid_argument : Errc
  invalid_state : Errc
  execution_unavailable : Errc
  out_of_memory : Errc
  operation_failed : Errc
  invalid_parameter : Errc
  null_pointer : Errc
  out_of_range : Errc
  misaligned : Errc
  not_ready : Errc
  timeout : Errc
  device_lost : Errc
  resource_busy : Errc
  permission_denied : Errc
  unsupported : Errc
  compilation_failed : Errc

-- The value of a call that returned, or the code that it threw.
pub data Result {ℓ} (A : Type ℓ) : Type ℓ where
  ok : A → Result A
  err : Errc → Result A

infixl 5 ◌>>=◌
infixr 4 ◌>>◌
abbrev pub ◌>>=◌ {ℓ κ} : {A : Type ℓ} {B : Type κ} → Result A → (A → Result B) → Result B
ok value >>= next = next value
err code >>= next = err code

abbrev pub ◌>>◌ {ℓ} : {B : Type ℓ} → Result (Unit {0}) → Result B → Result B
first >> second = first >>= λ _. second

-- `ORTEAF_THROW_IF(cond, code, msg)`.
abbrev pub throw_if : Bool → Errc → Result (Unit {0})
throw_if true e = err e
throw_if false e = ok tt

-- `ORTEAF_THROW_UNLESS(cond, code, msg)`.
abbrev pub throw_unless : Bool → Errc → Result (Unit {0})
throw_unless true e = ok tt
throw_unless false e = err e

-- What a call that returned says of its parts.
pub bind-ok {ℓ κ} :
    {A : Type ℓ} {B : Type κ} (first : Result A) (next : A → Result B) (last : B)
    → (first >>= next) ≡ ok last
    → (value : A) × (first ≡ ok value) × (next value ≡ ok last)
bind-ok (ok value) next last e = (value, refl, e)
bind-ok (err code) next last e = absurd (ground arith)

pub seq-ok {ℓ} :
    {B : Type ℓ} (m : Result (Unit {0})) (k : Result B) (b : B)
    → (m >> k) ≡ ok b
    → (m ≡ ok tt) × (k ≡ ok b)
seq-ok (ok tt) k b e = (refl, e)
seq-ok (err c) k b e = absurd (ground arith)

pub throw_unless-ok : (b : Bool) (c : Errc) → throw_unless b c ≡ ok tt → b ≡ true
throw_unless-ok b c e = ground arith

pub throw_if-ok : (b : Bool) (c : Errc) → throw_if b c ≡ ok tt → b ≡ false
throw_if-ok b c e = ground arith

pub ok_inj {ℓ} : {A : Type ℓ} (a b : A) → ok a ≡ ok b → a ≡ b
ok_inj a b e = cc

pub Result-cases {ℓ} :
    {A : Type ℓ} (m : Result A) → ((a : A) × (m ≡ ok a)) ⊎ ((c : Errc) × (m ≡ err c))
Result-cases (ok a) = inl (a, refl)
Result-cases (err c) = inr (c, refl)
