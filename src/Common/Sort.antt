-- ===== src/Common/Sort.antt =====
-- `Array.prototype.sort` with a numeric comparison, on integers.
use mathlib.Core.Bool.{false, ◌||◌}
use mathlib.Core.Path.{◌≡◌, refl, ◌∙◌}
use mathlib.Core.Logic.{inl, inr}
use mathlib.Core.List.{List, [], ◌∷◌}
use native.Mathlib.Omega.{arith}
use phan_tan_dkron_giuaky.Common.Tests.{if◌then◌else◌, Bool-cases}
use phan_tan_dkron_giuaky.Common.Lists.{All, Pairs}
use phan_tan_dkron_giuaky.Common.Int.{ℤ, ◌≤ℤ◌, ◌<ℤ◌, leb_ℤ, eqb_ℤ_iff}
use phan_tan_dkron_giuaky.Common.Classes.{◌==◌, int_eq}
use phan_tan_dkron_giuaky.Common.Maps.{has, Distinct}

insert_level : ℤ → List ℤ → List ℤ
insert_level a [] = a ∷ []
insert_level a (b ∷ l) = if leb_ℤ a b then a ∷ b ∷ l else b ∷ insert_level a l

unfoldable pub sort_levels : List ℤ → List ℤ
unfolding insert_level
sort_levels [] = []
sort_levels (a ∷ l) = insert_level a (sort_levels l)

has-insert_level : (a b : ℤ) (l : List ℤ) → has (insert_level a l) b ≡ (a == b || has l b)
unfolding has insert_level
has-insert_level a b [] = refl
has-insert_level a b (c ∷ l) = ground (arith, has-insert_level a b l)

insert_level-Distinct :
    (a : ℤ) (l : List ℤ) → has l a ≡ false → Distinct l → Distinct (insert_level a l)
unfolding insert_level has
insert_level-Distinct a [] h d = (refl, tt)
insert_level-Distinct a (c ∷ l) h d =
    ground (arith, has-insert_level a c l, insert_level-Distinct a l, eqb_ℤ_iff a c, eqb_ℤ_iff c a)

-- The sorted levels are those that were there.
pub has-sort_levels : (l : List ℤ) (b : ℤ) → has (sort_levels l) b ≡ has l b
unfolding has sort_levels
has-sort_levels [] b = refl
has-sort_levels (a ∷ l) b =
    ground (arith, has-insert_level a b (sort_levels l), has-sort_levels l b)

pub sort_levels-Distinct : (l : List ℤ) → Distinct l → Distinct (sort_levels l)
unfolding sort_levels
sort_levels-Distinct [] h = tt
sort_levels-Distinct (a ∷ l) h =
    insert_level-Distinct a (sort_levels l) (has-sort_levels l a ∙ h.0) (sort_levels-Distinct l h.1)

All-le_trans : (a b : ℤ) (l : List ℤ) → a ≤ℤ b → All (b ≤ℤ◌) l → All (a ≤ℤ◌) l
All-le_trans a b [] h k = tt
All-le_trans a b (c ∷ l) h k = (omega arith, All-le_trans a b l h k.1)

insert_level-All : (a b : ℤ) (l : List ℤ) → b ≤ℤ a → All (b ≤ℤ◌) l → All (b ≤ℤ◌) (insert_level a l)
unfolding insert_level
insert_level-All a b [] h k = (h, tt)
insert_level-All a b (c ∷ l) h k = elim (Bool-cases (leb_ℤ a c)) [
  | inl le ↦ rw le (h, k)
  | inr gt ↦ rw gt (k.0, insert_level-All a b l h k.1)
]

insert_level-Ascending : (a : ℤ) (l : List ℤ) → Pairs ◌≤ℤ◌ l → Pairs ◌≤ℤ◌ (insert_level a l)
unfolding insert_level
insert_level-Ascending a [] h = (tt, tt)
insert_level-Ascending a (c ∷ l) h = elim (Bool-cases (leb_ℤ a c)) [
  | inl le ↦ rw le ((ground arith, All-le_trans a c l (ground arith) h.0), h)
  | inr gt ↦ rw gt (insert_level-All a c l (ground arith) h.0, insert_level-Ascending a l h.1)
]

pub sort_levels-Ascending : (l : List ℤ) → Pairs ◌≤ℤ◌ (sort_levels l)
unfolding sort_levels
sort_levels-Ascending [] = tt
sort_levels-Ascending (a ∷ l) = insert_level-Ascending a (sort_levels l) (sort_levels-Ascending l)

All-lt : (a : ℤ) (l : List ℤ) → All (a ≤ℤ◌) l → has l a ≡ false → All (a <ℤ◌) l
unfolding has
All-lt a [] h k = tt
All-lt a (c ∷ l) h k = (ground (arith, eqb_ℤ_iff c a), All-lt a l h.1 (ground arith))

-- Distinct levels come out in strictly ascending order.
pub Ascending-strict : (l : List ℤ) → Pairs ◌≤ℤ◌ l → Distinct l → Pairs ◌<ℤ◌ l
Ascending-strict [] h d = tt
Ascending-strict (a ∷ l) h d = (All-lt a l h.0 d.0, Ascending-strict l h.1 d.1)
