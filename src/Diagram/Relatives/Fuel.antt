-- ===== src/Diagram/Relatives/Fuel.antt =====
-- The depth of the recursion: the known jobs that are not yet processed.
use phan_tan_dkron_giuaky.Common.{
  ℕ, suc, ◌≤◌, ◌<◌, ◌≡◌, refl, true, false, List, [], ◌∷◌, String, has, add, has-add, ==_iff,
  string_eq, if◌then◌else◌, arith, length,
}

pub fresh : List String → List String → ℕ
fresh [] ps = 0
fresh (k ∷ ks) ps = if has ps k then fresh ks ps else suc (fresh ks ps)

-- `qs` holds what `ps` holds.
abbrev pub Within : List String → List String → Type 0
Within ps qs = (a : String) → has ps a ≡ true → has qs a ≡ true

pub fresh-Within : (ks ps qs : List String) → Within ps qs → fresh ks qs ≤ fresh ks ps
unfolding fresh
fresh-Within [] ps qs h = omega arith
fresh-Within (k ∷ ks) ps qs h = ground (arith, h k, fresh-Within ks ps qs h)

pub Within-add : (ps : List String) (a : String) → Within ps (add ps a)
Within-add ps a b h = ground (arith, has-add ps a b)

-- Processing a known job uses one of them up.
pub fresh-add :
    (ks ps : List String) (a : String)
    → has ks a ≡ true
    → has ps a ≡ false
    → fresh ks (add ps a) < fresh ks ps
unfolding fresh has
fresh-add [] ps a h k = cc
fresh-add (b ∷ ks) ps a h k = ground (
  arith,
  ==_iff b a,
  ==_iff a b,
  has-add ps a b,
  fresh-add ks ps a,
  fresh-Within ks ps (add ps a) (Within-add ps a),
)

pub fresh-nil : (ks : List String) → fresh ks [] ≡ length ks
unfolding fresh has
fresh-nil [] = refl
fresh-nil (k ∷ ks) = omega (arith, fresh-nil ks)
