-- ===== src/Common/Text.antt =====
-- Texts as the language measures them: in UTF-16 code units.
use Prim.Native.Nat.{ℕ, zero, suc, ◌+◌, ◌-◌, ◌/◌, ◌%◌, ◌≤◌}
use Prim.Native.Char.{code}
use Prim.Native.String.{String}
use mathlib.Core.Path.{◌≡◌, refl, ap}
use mathlib.Core.List.{List, [], ◌∷◌, ◌++◌}
use native.Mathlib.Omega.{arith}
use phan_tan_dkron_giuaky.Common.Tests.{ltb, if◌then◌else◌}
use phan_tan_dkron_giuaky.Common.Lists.{length}

-- A code point beyond the first plane takes two units.
unfoldable pub units_of_code : ℕ → List ℕ
units_of_code c =
    if ltb c 0x10000
    then c ∷ []
    else (0xd800 + (c - 0x10000) / 0x400) ∷ (0xdc00 + (c - 0x10000) % 0x400) ∷ []

unfoldable pub units_of : String → List ℕ
unfolding units_of_code
units_of String.[] = []
units_of (String.◌∷◌ c s) = units_of_code (code c) ++ units_of s

-- The code points of a text.
unfoldable pub codes_of : String → List ℕ
codes_of String.[] = []
codes_of (String.◌∷◌ c s) = code c ∷ codes_of s

module _ {ℓ} {A : Type ℓ} where
  -- `s.substring(0, n)`
  abbrev pub take : ℕ → List A → List A
  take zero xs = []
  take (suc n) [] = []
  take (suc n) (x ∷ xs) = x ∷ take n xs

  pub length-take_of_le : (n : ℕ) (xs : List A) → n ≤ length xs → length (take n xs) ≡ n
  length-take_of_le zero xs h = refl
  length-take_of_le (suc n) [] h = elim h [ ]
  length-take_of_le (suc n) (x ∷ xs) h = ap suc (length-take_of_le n xs (omega arith))
