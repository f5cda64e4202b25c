-- ===== src/Diagram/Build/Relatives.antt =====
-- `relatedJobs` and `jobLevels` after both searches.
use phan_tan_dkron_giuaky.Common.{
  ◌≡◌, refl, ◌∙◌, true, false, ◌||◌, ◌⊎◌, ◌↔◌, some, inl, inr, List, [], ◌∷◌, ◌++◌, String, ℤ, pos,
  ◌<ℤ◌, has, has-append, has-add_all, add_all, add_all-Distinct, get, get-put, put, Distinct, ◌==◌,
  ==_iff, string_eq, Bool-cases, arith,
}
use phan_tan_dkron_giuaky.Diagram.Defs.{JobMap, IsParent, IsChild, Reach}
use phan_tan_dkron_giuaky.Diagram.Relatives.Walk.{Walk}
use phan_tan_dkron_giuaky.Diagram.Relatives.Spec.{Explored, Explored-complete}
use phan_tan_dkron_giuaky.Diagram.Relatives.Ancestors.{Negative}
use phan_tan_dkron_giuaky.Diagram.Relatives.Descendants.{Positive}
use phan_tan_dkron_giuaky.Diagram.Relatives.Correct.{
  new_walk, ancestors-Explored, descendants-Explored,
}
use phan_tan_dkron_giuaky.Diagram.Layout.Place.{level_of}
use phan_tan_dkron_giuaky.Diagram.Build.{Related, find_related}

module _ (m : JobMap) (current : String) where
  -- The job itself, the chain of its parents, and all that depends on it.
  abbrev pub Relative : String → Type 0
  Relative a = (current ≡ a) ⊎ (Reach (IsParent m) current a ⊎ Reach (IsChild m) current a)

  pub record IsRelated (r : Related) : Type 0 where
    pub once : Distinct r.names
    pub members : (a : String) → (has r.names a ≡ true) ↔ Relative a
    pub lower : (a : String) → Reach (IsChild m) current a → pos 0 <ℤ level_of r.levels a
    pub upper :
        (a : String)
        → Reach (IsParent m) current a
        → ¬ Reach (IsChild m) current a
        → level_of r.levels a <ℤ pos 0
    pub middle :
        ¬ Reach (IsParent m) current current
        → ¬ Reach (IsChild m) current current
        → level_of r.levels current ≡ pos 0

  abbrev start : List (String × ℤ)
  start = put [] current (pos 0)

  module _ (up down : Walk) (ancestors descendants : List String)
      (above : Explored (IsParent m) Negative current (new_walk start) up ancestors)
      (below : Explored (IsChild m) Positive current (new_walk up.levels) down descendants) where
    abbrev names : List String
    names = add_all [] (current ∷ ancestors ++ descendants)

    in_ancestors : (a : String) → Reach (IsParent m) current a → has ancestors a ≡ true
    unfolding has
    in_ancestors a r = (Explored-complete (IsParent m) Negative above (λ b. refl) r).1

    in_descendants : (a : String) → Reach (IsChild m) current a → has descendants a ≡ true
    unfolding has
    in_descendants a r = (Explored-complete (IsChild m) Positive below (λ b. refl) r).1

    has-names :
        (a : String) → has names a ≡ (current == a || (has ancestors a || has descendants a))
    has-names a =
        has-add_all [] (current ∷ ancestors ++ descendants) a
        ∙ unfold has in ground (arith, has-append ancestors descendants a)

    not_found :
        (xs : List String) (a : String) (R : Type 0)
        → (has xs a ≡ true → R)
        → ¬ R
        → has xs a ≡ false
    not_found xs a R f no_r = elim (Bool-cases (has xs a)) [
      | inl there ↦ absurd (no_r (f there))
      | inr missing ↦ missing
    ]

    level_at : (w : Walk) (a : String) (l : ℤ) → get w.levels a ≡ some l → level_of w.levels a ≡ l
    level_at w a l h = unfold level_of in ground arith

    IsRelated-facts : IsRelated (record { names = names; levels = down.levels })
    IsRelated-facts = record {
      once = add_all-Distinct [] (current ∷ ancestors ++ descendants) tt;
      members = λ a. (
        λ h. elim (Bool-cases (current == a)) [
          | inl same ↦ inl ((==_iff current a).0 same)
          | inr other ↦ elim (Bool-cases (has ancestors a)) [
            | inl there ↦ inr (inl (above.sound a there))
            | inr missing ↦ inr (inr (below.sound a (ground (arith, has-names a))))
          ]
        ],
        λ r. elim r [
          | inl same ↦ ground (arith, has-names a, ==_iff current a)
          | inr (inl u) ↦ ground (arith, has-names a, in_ancestors a u)
          | inr (inr d) ↦ ground (arith, has-names a, in_descendants a d)
        ],
      );
      lower = λ a r.
          let (l, at, good) = below.progress.leveled a (in_descendants a r) in
          rw (level_at down a l at) good;
      upper = λ a r no_child.
          let (l, at, good) = above.progress.leveled a (in_ancestors a r) in
          let missing =
            not_found descendants a (Reach (IsChild m) current a) (below.sound a) no_child in
          rw (level_at down a l (below.progress.kept a missing ∙ at)) good;
      middle = λ no_parent no_child.
          let not_above =
            not_found ancestors current (Reach (IsParent m) current current) (above.sound current)
              no_parent in
          let not_below =
            not_found descendants current (Reach (IsChild m) current current) (below.sound current)
              no_child in
          level_at down current (pos 0) (
            below.progress.kept current not_below
            ∙ (above.progress.kept current not_above
                ∙ ground
                    (arith, get-put {V = ℤ} [] current current (pos 0), ==_iff current current)));
    }

  -- Both searches return.
  pub find_related_total : (r : Related) × (find_related m current ≡ some r) × IsRelated r
  unfolding find_related
  find_related_total =
      let ((ancestors, up), ran, above) = ancestors-Explored m current start in
      let ((descendants, down), ran', below) = descendants-Explored m current up.levels in
      (
        record { names = names up down ancestors descendants above below; levels = down.levels },
        ground arith,
        IsRelated-facts up down ancestors descendants above below,
      )
