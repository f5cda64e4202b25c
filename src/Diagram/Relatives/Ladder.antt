-- ===== src/Diagram/Relatives/Ladder.antt =====
-- `findAncestors` on parents without a cycle: each parent is one level above its child.
use phan_tan_dkron_giuaky.Common.{
  ℕ, zero, suc, ◌<◌, ◌≡◌, refl, sym, ap, ◌∙◌, false, ◌⊎◌, inl, inr, some, List, [], ◌∷◌, String, ℤ,
  pos, ◌-ℤ◌, ◌≤ℤ◌, int_laws, has, has-add, get, get-put, keys, has_key, has_key_of_get, subst,
  ==_iff, string_eq, Bool-cases, Option-cases, arith,
}
use phan_tan_dkron_giuaky.Diagram.Defs.{Job, JobMap, IsParent, Reach, Reach-before}
use phan_tan_dkron_giuaky.Diagram.Relatives.Walk.{
  Walk, process, set_level, known_parent, find_ancestors,
}
use phan_tan_dkron_giuaky.Diagram.Relatives.Fuel.{fresh, fresh-add}
use phan_tan_dkron_giuaky.Diagram.Relatives.Ancestors.{
  explore_ancestors, step_runs, known_parent-IsParent, known_parent_of_IsParent,
}
use phan_tan_dkron_giuaky.Diagram.Relatives.Correct.{enough}

module _ (m : JobMap) where
  -- `name` itself, or a job above it.
  abbrev pub Above : String → String → Type 0
  Above name a = (name ≡ a) ⊎ Reach (IsParent m) name a

  one_parent :
      (name p q : String) (job : Job)
      → get m name ≡ some job
      → known_parent m job ≡ some p
      → IsParent m name q
      → p ≡ q
  one_parent name p q job found named next =
      cc (named, known_parent_of_IsParent m name q job found next)

  -- What is above a job is its parent, or above its parent.
  Above-parent :
      (name p : String) (job : Job) {a : String}
      → get m name ≡ some job
      → known_parent m job ≡ some p
      → Reach (IsParent m) name a
      → Above p a
  Above-parent name p job found named (Reach.one next) =
      inl (one_parent name p _ job found named next)
  Above-parent name p job {a} found named (Reach.more {b} r next) =
      elim (Above-parent name p job found named r) [
        | inl same ↦ inr (Reach.one (subst (λ x. IsParent m x a) (sym same) next))
        | inr above ↦ inr (Reach.more above next)
      ]

  Above-child :
      (name p : String) {a : String} → IsParent m name p → Above p a → Reach (IsParent m) name a
  Above-child name p next (inl same) = subst (Reach (IsParent m) name) same (Reach.one next)
  Above-child name p next (inr above) = Reach-before (IsParent m) name next above

  -- In the walk `w`, the parent of each job from `name` upwards is a level above it.
  abbrev pub Rung : Walk → String → String → Type 0
  Rung w x p = (l : ℤ) × (get w.levels x ≡ some l) × (get w.levels p ≡ some (l -ℤ pos 1))

  pub record Ladder (name : String) (level : ℤ) (w : Walk) : Type 0 where
    pub own : get w.levels name ≡ some level
    pub rungs : (x p : String) → Above name x → IsParent m x p → Rung w x p

  abbrev pub Climb : ℕ → String → ℤ → Walk → Type 0
  Climb fuel name level w =
      (r : List String × Walk) × (find_ancestors fuel m name level w ≡ some r)
      × Ladder name level r.1

  -- A job without a known parent ends the ladder.
  top :
      (fuel : ℕ) (name : String) (level : ℤ) (w : Walk)
      → get w.levels name ≡ some level
      → ((a : String) → ¬ IsParent m name a)
      → find_ancestors (suc fuel) m name level w ≡ some ([], process name w)
      → Climb (suc fuel) name level w
  top fuel name level w at nothing ran = (
    ([], process name w),
    ran,
    record {
      own = at;
      rungs = λ x p above next. elim above [
        | inl same ↦ absurd (nothing p (subst (λ y. IsParent m y p) (sym same) next))
        | inr r ↦ absurd (no_step name x nothing r)
      ];
    },
  )
    where
      no_step :
          (name x : String) → ((a : String) → ¬ IsParent m name a) → ¬ Reach (IsParent m) name x
      no_step name x nothing (Reach.one next) = nothing x next
      no_step name x nothing (Reach.more {b} r next) = no_step name b nothing r

  not_self :
      (name a : String)
      → ((a : String) → Above name a → ¬ Reach (IsParent m) a a)
      → Reach (IsParent m) name a
      → ¬ (name ≡ a)
  not_self name a no_cycle r same =
      no_cycle name (inl refl) (subst (Reach (IsParent m) name) (sym same) r)

  -- The call on the parent, and then the job itself.
  step :
      (fuel : ℕ) (name : String) (level : ℤ) (w : Walk) (job : Job) (p : String)
      → level ≤ℤ pos 0
      → fresh (keys m) (process name w).processed < fuel
      → get m name ≡ some job
      → known_parent m job ≡ some p
      → has w.processed name ≡ false
      → get w.levels name ≡ some level
      → ((a : String) → Above name a → ¬ Reach (IsParent m) a a)
      → Climb fuel p (level -ℤ pos 1) (set_level p (level -ℤ pos 1) (process name w))
      → Climb (suc fuel) name level w
  step fuel name level w job p below less found named new at no_cycle ((rest, w'), ran, h) =
      let next = known_parent-IsParent m name p job found named in
      let w₁ = set_level p (level -ℤ pos 1) (process name w) in
      let ((rest₂, w₂), ran₂, e) =
        explore_ancestors m fuel p (level -ℤ pos 1) w₁ less (omega int_laws) in
      let same_walk : w₂ ≡ w' = cc (ran, ran₂) in
      let missing : has rest₂ name ≡ false = elim (Bool-cases (has rest₂ name)) [
        | inl there ↦
            absurd
              (no_cycle name (inl refl) (Reach-before (IsParent m) name next (e.sound name there)))
        | inr missing ↦ missing
      ] in
      let other : ¬ (p ≡ name) =
        λ same. no_cycle name (inl refl) (subst (Reach (IsParent m) name) same (Reach.one next)) in
      let own : get w'.levels name ≡ some level =
        ap (λ v. get v.levels name) (sym same_walk)
        ∙ (e.progress.kept name missing
            ∙ ground (arith, get-put w.levels p name (level -ℤ pos 1), ==_iff p name, at)) in
      (
        (p ∷ rest, w'),
        step_runs m fuel name level w w' job p rest new found named ran,
        record {
          own = own;
          rungs = λ x q above up. elim above [
            | inl same ↦ (
              level,
              subst (λ y. get w'.levels y ≡ some level) same own,
              subst (λ y. get w'.levels y ≡ some (level -ℤ pos 1))
                  (one_parent name p q job found named (subst (λ y. IsParent m y q) (sym same) up))
                  h.own,
            )
            | inr r ↦ h.rungs x q (Above-parent name p job found named r) up
          ];
        },
      )

  pub climb :
      (fuel : ℕ) (name : String) (level : ℤ) (w : Walk)
      → fresh (keys m) w.processed < fuel
      → level ≤ℤ pos 0
      → get w.levels name ≡ some level
      → ((a : String) → Above name a → ¬ Reach (IsParent m) a a)
      → ((a : String) → Above name a → has w.processed a ≡ false)
      → Climb fuel name level w
  unfolding find_ancestors has_key
  climb zero name level w enough below at no_cycle new = elim enough [ ]
  climb (suc fuel) name level w enough below at no_cycle new =
      let unseen = new name (inl refl) in
      elim (Option-cases (get m name)) [
        | inl unknown ↦ top fuel name level w at (λ a s. cc (s.found)) (ground arith)
        | inr (job, found) ↦ elim (Option-cases (known_parent m job)) [
          | inl orphan ↦
              top fuel name level w at (λ a s. cc (known_parent_of_IsParent m name a job found s))
                (ground arith)
          | inr (p, named) ↦
              let next = known_parent-IsParent m name p job found named in
              let less : fresh (keys m) (process name w).processed < fuel = omega (
                arith,
                fresh-add (keys m) w.processed name (has_key_of_get m name job found) unseen,
              ) in
              step fuel name level w job p below less found named unseen at no_cycle (
                climb fuel p (level -ℤ pos 1) (set_level p (level -ℤ pos 1) (process name w)) less
                  (omega int_laws)
                  (ground (arith, get-put w.levels p p (level -ℤ pos 1), ==_iff p p))
                  (λ a above. no_cycle a (inr (Above-child name p next above)))
                  (λ a above. ground (
                    arith,
                    has-add w.processed name a,
                    ==_iff name a,
                    new a (inr (Above-child name p next above)),
                    not_self name a no_cycle (Above-child name p next above),
                  )))
        ]
      ]
