-- ===== src/Common/Classes.antt =====
-- What `Set` and `Map` need of their keys: a comparison that tells whether two are the same.
use Prim.Native.Nat.{ℕ}
use Prim.Native.String.{String}
use mathlib.Core.Path.{◌≡◌}
use mathlib.Core.Logic.{◌↔◌}
use mathlib.Core.Bool.{Bool, true, false, ◌&&◌}
use mathlib.Core.List.{List, [], ◌∷◌}
use native.Mathlib.Omega.{arith}
use text.Mathlib.Text.{◌==◌ as str_eq}
use text.Mathlib.TextEquality.{eq_iff}
use phan_tan_dkron_giuaky.Common.Tests.{eqb, eqb_iff}
use phan_tan_dkron_giuaky.Common.Int.{ℤ, eqb_ℤ, eqb_ℤ_iff}

pub record Key {ℓ} (K : Type ℓ) : Type ℓ where
  pub compares : K → K → Bool
  pub compares_iff : (k l : K) → (compares k l ≡ true) ↔ (k ≡ l)

instance abbrev pub int_eq : Key ℤ
int_eq = record { compares = eqb_ℤ; compares_iff = eqb_ℤ_iff }

instance abbrev pub string_eq : Key String
string_eq = record { compares_iff = eq_iff; compares = str_eq }

instance abbrev pub nat_eq : Key ℕ
nat_eq = record { compares = eqb; compares_iff = eqb_iff }

abbrev pub eqb_codes : List ℕ → List ℕ → Bool
eqb_codes [] [] = true
eqb_codes [] (y ∷ ys) = false
eqb_codes (x ∷ xs) [] = false
eqb_codes (x ∷ xs) (y ∷ ys) = eqb x y && eqb_codes xs ys

pub eqb_codes_iff : (xs ys : List ℕ) → (eqb_codes xs ys ≡ true) ↔ (xs ≡ ys)
eqb_codes_iff [] [] = ground arith
eqb_codes_iff [] (y ∷ ys) = ground arith
eqb_codes_iff (x ∷ xs) [] = ground arith
eqb_codes_iff (x ∷ xs) (y ∷ ys) = ground (arith, eqb_iff x y, eqb_codes_iff xs ys)

-- Texts, as lists of code points
instance abbrev pub codes_eq : Key (List ℕ)
codes_eq = record { compares = eqb_codes; compares_iff = eqb_codes_iff }

module _ {ℓ} {K : Type ℓ} ⦃key : Key K⦄ where
  infix 50 ◌==◌
  abbrev pub ◌==◌ : K → K → Bool
  a == b = key.compares a b

  pub ==_iff : (a b : K) → ((a == b) ≡ true) ↔ (a ≡ b)
  ==_iff a b = key.compares_iff a b
