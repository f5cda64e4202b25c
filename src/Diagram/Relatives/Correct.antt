-- ===== src/Diagram/Relatives/Correct.antt =====
-- What the two searches of `buildDependencyGraph` return, from an empty set of processed names.
use phan_tan_dkron_giuaky.Common.{
  ℕ, suc, ◌<◌, ◌≡◌, refl, ap, true, some, List, [], ◌∷◌, String, ℤ, pos, ◌↔◌, has, keys, length,
  string_eq, arith,
}
use phan_tan_dkron_giuaky.Diagram.Defs.{JobMap, IsParent, IsChild, Reach}
use phan_tan_dkron_giuaky.Diagram.Relatives.Walk.{Walk, find_ancestors, find_descendants}
use phan_tan_dkron_giuaky.Diagram.Relatives.Fuel.{fresh, fresh-nil}
use phan_tan_dkron_giuaky.Diagram.Relatives.Spec.{Explored, Explored-complete}
use phan_tan_dkron_giuaky.Diagram.Relatives.Ancestors.{explore_ancestors, Negative}
use phan_tan_dkron_giuaky.Diagram.Relatives.Descendants.{explore_descendants, Positive}

-- No name is processed.
abbrev pub new_walk : List (String × ℤ) → Walk
new_walk levels = record { processed = []; levels = levels }

length-keys : (m : JobMap) → length (keys m) ≡ length m
length-keys [] = refl
length-keys ((k, v) ∷ m) = ap suc (length-keys m)

-- The number of known jobs, and one more, is fuel enough.
abbrev pub depth_bound : JobMap → ℕ
depth_bound m = suc (length m)

module _ (m : JobMap) (name : String) (levels : List (String × ℤ)) where
  pub enough : fresh (keys m) (new_walk levels).processed < depth_bound m
  enough = omega (arith, fresh-nil (keys m), length-keys m)

  pub ancestors-Explored :
      (r : List String × Walk) × (find_ancestors (depth_bound m) m name (pos 0) (new_walk levels)
        ≡ some r)
      × Explored (IsParent m) Negative name (new_walk levels) r.1 r.0
  ancestors-Explored =
      explore_ancestors m (depth_bound m) name (pos 0) (new_walk levels) enough (omega arith)

  pub descendants-Explored :
      (r : List String × Walk) × (find_descendants (depth_bound m) m name (pos 0) (new_walk levels)
        ≡ some r)
      × Explored (IsChild m) Positive name (new_walk levels) r.1 r.0
  descendants-Explored =
      explore_descendants m (depth_bound m) name (pos 0) (new_walk levels) enough (omega arith)

-- From an empty set of processed names and with fuel for one call more than there are known jobs,
-- `findAncestors` returns for every map of jobs, also one whose parents form a cycle; a name is among
-- its results exactly when one or more steps from a job to its known parent lead there from `name`.
pub find_ancestors_iff_Reach :
    (m : JobMap) (name a : String) (levels : List (String × ℤ))
    → (r : List String × Walk) × (find_ancestors (depth_bound m) m name (pos 0) (new_walk levels)
        ≡ some r)
      × ((has r.0 a ≡ true) ↔ Reach (IsParent m) name a)
unfolding has
find_ancestors_iff_Reach m name a levels =
    let (r, ran, h) = ancestors-Explored m name levels in
    (r, ran, (h.sound a, λ k. (Explored-complete (IsParent m) Negative h (λ b. refl) k).1))

-- From an empty set of processed names and with fuel for one call more than there are known jobs,
-- `findDescendants` returns for every map of jobs, also one whose dependents form a cycle; a name is
-- among its results exactly when one or more steps from a job to a known dependent lead there.
pub find_descendants_iff_Reach :
    (m : JobMap) (name a : String) (levels : List (String × ℤ))
    → (r : List String × Walk) × (find_descendants (depth_bound m) m name (pos 0) (new_walk levels)
        ≡ some r)
      × ((has r.0 a ≡ true) ↔ Reach (IsChild m) name a)
unfolding has
find_descendants_iff_Reach m name a levels =
    let (r, ran, h) = descendants-Explored m name levels in
    (r, ran, (h.sound a, λ k. (Explored-complete (IsChild m) Positive h (λ b. refl) k).1))
