-- ===== src/Diagram/Relatives/Ancestors.antt =====
-- `findAncestors`: it ends, and finds the chain of parents.
use phan_tan_dkron_giuaky.Common.{
  ℕ, zero, suc, ◌<◌, ◌≡◌, false, inl, inr, some, List, [], ◌∷◌, String, ℤ, pos, ◌-ℤ◌, ◌<ℤ◌, ◌≤ℤ◌,
  int_laws, has, get, keys, has_key, has_key_of_get, subst, ◌==◌, ==_iff, string_eq, Bool-cases,
  Option-cases, arith,
}
use phan_tan_dkron_giuaky.Diagram.Defs.{Job, JobMap, IsParent, Reach, Reach-before}
use phan_tan_dkron_giuaky.Diagram.Relatives.Walk.{
  Walk, process, set_level, known_parent, find_ancestors,
}
use phan_tan_dkron_giuaky.Diagram.Relatives.Fuel.{fresh, fresh-add}
use phan_tan_dkron_giuaky.Diagram.Relatives.Spec.{Explored}
use phan_tan_dkron_giuaky.Diagram.Relatives.Steps.{again, stop, enter, leave}

pub known_parent-IsParent :
    (m : JobMap) (child p : String) (job : Job)
    → get m child ≡ some job
    → known_parent m job ≡ some p
    → IsParent m child p
unfolding known_parent
known_parent-IsParent m child p job found h = ground arith

pub known_parent_of_IsParent :
    (m : JobMap) (child p : String) (job : Job)
    → get m child ≡ some job
    → IsParent m child p
    → known_parent m job ≡ some p
unfolding known_parent
known_parent_of_IsParent m child p job found h = ground arith

abbrev pub Negative : ℤ → Type 0
Negative l = l <ℤ pos 0

module _ (m : JobMap) where
  abbrev pub Outcome : ℕ → String → ℤ → Walk → Type 0
  Outcome fuel name level w =
      (r : List String × Walk) × (find_ancestors fuel m name level w ≡ some r)
      × Explored (IsParent m) Negative name w r.1 r.0

  pub step_runs :
      (fuel : ℕ) (name : String) (level : ℤ) (w w' : Walk) (job : Job) (p : String)
      (rest : List String)
      → has w.processed name ≡ false
      → get m name ≡ some job
      → known_parent m job ≡ some p
      → find_ancestors fuel m p (level -ℤ pos 1) (set_level p (level -ℤ pos 1) (process name w))
        ≡ some (rest, w')
      → find_ancestors (suc fuel) m name level w ≡ some (p ∷ rest, w')
  unfolding find_ancestors
  step_runs fuel name level w w' job p rest new found named ran = ground arith

  step :
      (fuel : ℕ) (name : String) (level : ℤ) (w : Walk) (job : Job) (p : String)
      → level ≤ℤ pos 0
      → get m name ≡ some job
      → known_parent m job ≡ some p
      → Outcome fuel p (level -ℤ pos 1) (set_level p (level -ℤ pos 1) (process name w))
      → (has w.processed name ≡ false)
      → Outcome (suc fuel) name level w
  unfolding has
  step fuel name level w job p below found named ((rest, w'), ran, h) new =
      let entered =
        enter (IsParent m) Negative p (level -ℤ pos 1) (process name w) w' rest (omega int_laws)
          h in
      let next = known_parent-IsParent m name p job found named in
      (
        (p ∷ rest, w'),
        step_runs fuel name level w w' job p rest new found named ran,
        leave (IsParent m) Negative name w w' (p ∷ rest) entered
            (λ b s.
              ground (arith, h.root_in, known_parent_of_IsParent m name b job found s, ==_iff p b))
            (λ a s. elim (Bool-cases (p == a)) [
              | inl same ↦ subst (Reach (IsParent m) name) ((==_iff p a).0 same) (Reach.one next)
              | inr other ↦ Reach-before (IsParent m) name next (h.sound a (ground arith))
            ]),
      )

  last :
      (fuel : ℕ) (name : String) (level : ℤ) (w : Walk)
      → (has w.processed name ≡ false)
      → ((a : String) → ¬ IsParent m name a)
      → find_ancestors (suc fuel) m name level w ≡ some ([], process name w)
      → Outcome (suc fuel) name level w
  last fuel name level w new nothing ran =
      (([], process name w), ran, stop (IsParent m) Negative name w nothing)

  -- The induction: with fuel for every job not yet processed, the call returns.
  pub explore_ancestors :
      (fuel : ℕ) (name : String) (level : ℤ) (w : Walk)
      → fresh (keys m) w.processed < fuel
      → level ≤ℤ pos 0
      → Outcome fuel name level w
  unfolding find_ancestors has_key
  explore_ancestors zero name level w enough below = elim enough [ ]
  explore_ancestors (suc fuel) name level w enough below =
      elim (Bool-cases (has w.processed name)) [
        | inl old ↦ (([], w), ground arith, again (IsParent m) Negative name w old)
        | inr new ↦ elim (Option-cases (get m name)) [
          | inl unknown ↦ last fuel name level w new (λ a s. cc (s.found)) (ground arith)
          | inr (job, found) ↦ elim (Option-cases (known_parent m job)) [
            | inl orphan ↦
                last fuel name level w new
                  (λ a s. cc (known_parent_of_IsParent m name a job found s)) (ground arith)
            | inr (p, named) ↦
                step fuel name level w job p below found named
                  (explore_ancestors fuel p (level -ℤ pos 1)
                    (set_level p (level -ℤ pos 1) (process name w))
                    (omega (
                      arith,
                      fresh-add (keys m) w.processed name (has_key_of_get m name job found) new,
                    ))
                    (omega int_laws))
                  new
          ]
        ]
      ]
