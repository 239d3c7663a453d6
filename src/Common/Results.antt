-- ===== src/Common/Results.antt =====
-- `Result`, with the chaining that `?` does.
use mathlib.Core.Bool.{Bool, true, false}

pub data Result {ℓ κ} (A : Type ℓ) (E : Type κ) : Type (ℓ ⊔ κ) where
  ok : A → Result A E
  err : E → Result A E

infixl 5 ◌>>=◌ ◌>>◌
abbrev pub ◌>>=◌ {ℓ κ λ'} :
    {A : Type ℓ} {B : Type κ} {E : Type λ'} → Result A E → (A → Result B E) → Result B E
ok a >>= f = f a
err e >>= f = err e

abbrev pub ◌>>◌ {κ λ'} : {B : Type κ} {E : Type λ'} → Result (Unit {0}) E → Result B E → Result B E
m >> k = m >>= λ _. k

-- `if test { return Err(e) }`.
abbrev pub fail_if {κ} : {E : Type κ} → Bool → E → Result (Unit {0}) E
fail_if true e = err e
fail_if false e = ok tt

-- `Result::map_err`.
abbrev pub map_err {ℓ κ λ'} :
    {A : Type ℓ} {E : Type κ} {F : Type λ'} → (E → F) → Result A E → Result A F
map_err f (ok a) = ok a
map_err f (err e) = err (f e)
