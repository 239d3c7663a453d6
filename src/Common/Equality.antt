-- ===== src/Common/Equality.antt =====
-- Types whose values the program compares with `==`.
use Prim.Native.Nat.{ℕ}
use mathlib.Core.Bool.{Bool, true}
use mathlib.Core.Logic.{◌↔◌}
use mathlib.Core.Path.{◌≡◌, refl}
use rustern.Common.Bools.{nat_beq, nat_beq_iff}

-- `PartialEq` and `Eq` of the source: the test agrees with equality.
pub record Eq {ℓ} (K : Type ℓ) : Type ℓ where
  pub beq : K → K → Bool
  pub beq_iff : (x y : K) → (beq x y ≡ true) ↔ (x ≡ y)

module _ {ℓ} {K : Type ℓ} ⦃test : Eq K⦄ where
  infix 50 ◌==◌
  abbrev pub ◌==◌ : K → K → Bool
  ◌==◌ = test.beq

  pub eq→beq : {x y : K} → x ≡ y → (x == y) ≡ true
  eq→beq {x} {y} h = (test.beq_iff x y).1 h

  pub beq→eq : {x y : K} → (x == y) ≡ true → x ≡ y
  beq→eq {x} {y} h = (test.beq_iff x y).0 h

  pub beq_self : (x : K) → (x == x) ≡ true
  beq_self x = (test.beq_iff x x).1 refl

instance abbrev pub nat_eq : Eq ℕ
nat_eq = record { beq = nat_beq; beq_iff = nat_beq_iff }
