-- ===== src/PoolManager/Action.antt =====
-- Calls of `PoolManager` (orteaf/include/orteaf/internal/base/manager/pool_manager.h): they change the
-- manager and may throw.
use orteaf.Prelude.{Bool, true, false, ◌≡◌, refl, arith}
use orteaf.Diagnostics.{Errc, Result, ok, err}

abbrev pub Action : Type 0 → Type 0 → Type 0
Action S A = S → Result A × S

-- A throw ends the call and keeps the changes made so far.
abbrev pub continue : {S A B : Type 0} → Result A × S → (A → Action S B) → Result B × S
continue (ok a, s) next = next a s
continue (err code, s) next = (err code, s)

infixl 5 ◌>>=◌
infixr 4 ◌>>◌
abbrev pub ◌>>=◌ : {S A B : Type 0} → Action S A → (A → Action S B) → Action S B
◌>>=◌ m next s = continue (m s) next

abbrev pub ◌>>◌ : {S A B : Type 0} → Action S A → Action S B → Action S B
◌>>◌ m next s = continue (m s) (λ a. next)

module _ {S : Type 0} where
  abbrev pub return : {A : Type 0} → A → Action S A
  return a s = (ok a, s)

  abbrev pub throw_if : Bool → Errc → Action S (Unit {0})
  throw_if true code s = (err code, s)
  throw_if false code s = (ok tt, s)

  -- An assignment to the object's fields.
  abbrev pub modify : (S → S) → Action S (Unit {0})
  modify f s = (ok tt, f s)

-- What a call that returned says of its parts.
pub continue-ok :
    {S A B : Type 0} (r : Result A × S) (next : A → Action S B) (b : B) (s : S)
    → continue r next ≡ (ok b, s)
    → (a : A) × (s1 : S) × (r ≡ (ok a, s1)) × (next a s1 ≡ (ok b, s))
continue-ok (ok a, s1) next b s e = (a, s1, refl, e)
continue-ok (err code, s1) next b s e = absurd (ground arith)

pub throw_if-ok :
    {S : Type 0} (b : Bool) (code : Errc) (s s' : S) (u : Unit {0})
    → throw_if b code s ≡ (ok u, s')
    → (b ≡ false) × (s ≡ s')
throw_if-ok true code s s' u e = absurd (ground arith)
throw_if-ok false code s s' u e = (refl, λ i. (e i).1)
