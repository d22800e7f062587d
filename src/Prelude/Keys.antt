-- ===== src/Prelude/Keys.antt =====
-- Equality tests as an interface. Go compares map keys and texts with ==; each type of keys gives
-- its test and the law of it.
use Prim.Native.Nat.{ℕ}
use mathlib.Core.Path.{◌≡◌, refl}
use mathlib.Core.Logic.{◌↔◌, ◌≢◌}
use mathlib.Core.Bool.{Bool, true, false, ◌&&◌}
use mathlib.Core.List.{List, [], ◌∷◌}
use native.Mathlib.Omega.{arith}
use irl_universal_ingest.Prelude.Tests.{nat_beq, nat_beq_iff}
use irl_universal_ingest.Prelude.Int.{ℤ, int_beq, int_beq_iff}

pub record Equality {ℓ} (K : Type ℓ) : Type ℓ where
  pub beq : K → K → Bool
  pub beq_iff : (x y : K) → (beq x y ≡ true) ↔ (x ≡ y)

infix 50 ◌==◌
abbrev pub ◌==◌ {ℓ} : {K : Type ℓ} ⦃eq : Equality K⦄ → K → K → Bool
◌==◌ ⦃eq⦄ = eq.beq

instance abbrev pub nat_eq : Equality ℕ
nat_eq = record { beq = nat_beq; beq_iff = nat_beq_iff }

instance abbrev pub int_eq : Equality ℤ
int_eq = record { beq = int_beq; beq_iff = int_beq_iff }

-- A Go string is its bytes.
abbrev pub Text : Type 0
Text = List ℕ

unfoldable pub text_beq : Text → Text → Bool
text_beq [] [] = true
text_beq [] (y ∷ ys) = false
text_beq (x ∷ xs) [] = false
text_beq (x ∷ xs) (y ∷ ys) = nat_beq x y && text_beq xs ys

pub text_beq_iff : (s t : Text) → (text_beq s t ≡ true) ↔ (s ≡ t)
unfolding text_beq
text_beq_iff [] [] = ground arith
text_beq_iff [] (y ∷ ys) = ground arith
text_beq_iff (x ∷ xs) [] = ground arith
text_beq_iff (x ∷ xs) (y ∷ ys) = ground (arith, text_beq_iff xs ys)

instance abbrev pub text_eq : Equality Text
text_eq = record { beq = text_beq; beq_iff = text_beq_iff }

module _ {ℓ} {K : Type ℓ} ⦃eq : Equality K⦄ where
  pub beq_refl : (x : K) → (x == x) ≡ true
  beq_refl x = (eq.beq_iff x x).1 refl

  pub beq_of_ne : (x y : K) → x ≢ y → (x == y) ≡ false
  beq_of_ne x y h = ground (arith, eq.beq_iff x y)

  pub beq_sym : (x y : K) → (x == y) ≡ (y == x)
  beq_sym x y = ground (arith, eq.beq_iff x y, eq.beq_iff y x)
