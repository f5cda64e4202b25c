-- ===== src/Server/Store/Deletes.antt =====
-- `DeleteJob` of `dkron/dkron/store.go`: when it is refused, and that it takes the job out of both sides
-- of the tree of jobs.
use phan_tan_dkron_giuaky.Common.{
  ℕ, suc, ◌≡◌, refl, ◌∙◌, sym, ap, true, false, ◌&&◌, ◌⊎◌, ◌↔◌, inl, inr, Option, some, none, List,
  [], ◌∷◌, String, ℤ, ◌==◌, ==_iff, string_eq, get, erase, if◌then◌else◌, Option-cases, List-cases,
  arith,
}
use phan_tan_dkron_giuaky.Diagram.Defs.{truthy}
use phan_tan_dkron_giuaky.Server.Job.{Job, Error, dependents_exist, not_found}
use phan_tan_dkron_giuaky.Server.Cron.{Checks}
use phan_tan_dkron_giuaky.Server.Store.{Jobs, get_parent, remove_from_parent, set_job, delete_job}
use phan_tan_dkron_giuaky.Server.Store.Links.{parent_at, parent_at_found, Linked, scheduled_at}
use phan_tan_dkron_giuaky.Server.Job.{is_none}
use phan_tan_dkron_giuaky.Server.Store.Resave.{set_job-listing}
use phan_tan_dkron_giuaky.Server.Store.Relink.{remove_from_parent_lem}
use phan_tan_dkron_giuaky.Server.Store.Parents.{validate-parent}
use phan_tan_dkron_giuaky.Server.Store.Erase.{
  missing-erase, parent_at-erase, scheduled_at-erase, dependent-erase, erase-Sound, childless_lem,
  first_child, named_is_there, nonempty_name,
}

-- The error of `DeleteJob`, if any
pub removal : Jobs → String → Option Error
removal m n = elim (get m n) [
  | none ↦ some not_found
  | some j ↦ elim j.dependent_jobs [ [] ↦ none | d ∷ ds ↦ some dependents_exist ]
]

removal_cases :
    (m : Jobs) (n : String)
    → ((get m n ≡ none) × (removal m n ≡ some not_found))
      ⊎ ((j : Job) × (get m n ≡ some j) × (j.dependent_jobs ≡ []) × (removal m n ≡ none))
      ⊎ ((j : Job) × (d : String) × (ds : List String) × (get m n ≡ some j)
          × (j.dependent_jobs ≡ d ∷ ds)
          × (removal m n ≡ some dependents_exist))
unfolding removal
removal_cases m n = elim (Option-cases (get m n)) [
  | inl gone ↦ inl (gone, rw (removal, gone) refl)
  | inr (j, found) ↦ elim (List-cases j.dependent_jobs) [
    | inl clear ↦ inr (inl (j, found, clear, rw (removal, found) (rw clear refl)))
    | inr (d, ds, listed) ↦
        inr (inr (j, d, ds, found, listed, rw (removal, found) (rw listed refl)))
  ]
]

-- Only a job that is there is deleted.
pub deleted_there : (m : Jobs) (n : String) → removal m n ≡ none → (j : Job) × (get m n ≡ some j)
deleted_there m n free = elim (removal_cases m n) [
  | inl (gone, e) ↦ cc
  | inr (inl (j, found, clear, e)) ↦ (j, found)
  | inr (inr (j, d, ds, found, listed, e)) ↦ cc
]

module _ (k : Checks) where
  removal_iff :
      (m : Jobs) (n : String)
      → Linked k m
      → (removal m n ≡ some dependents_exist)
        ↔ ((truthy n ≡ true) × (d : String) × (parent_at m d ≡ some n))
  removal_iff m n l = elim (removal_cases m n) [
    | inl (gone, e) ↦ (
      λ refused. let no : true ≡ false = ground arith in cc,
      λ (t, d, child). elim (named_is_there k m n d l.sound t gone child) [ ],
    )
    | inr (inl (j, found, clear, e)) ↦ (
      λ refused. let no : true ≡ false = ground arith in cc,
      λ (t, d, child). elim (childless_lem k m n j d l found clear child) [ ],
    )
    | inr (inr (j, d, ds, found, listed, e)) ↦ (
      λ refused. (nonempty_name k m n j l.sound found, d, first_child k m n j d ds l found listed),
      λ child. e,
    )
  ]

module _ (k : Checks) (now : ℤ) where
  delete_job_erases :
      (fuel : ℕ) (m : Jobs) (n : String) (j : Job)
      → get m n ≡ some j
      → j.dependent_jobs ≡ []
      → delete_job k now fuel m n
        ≡ remove_from_parent (set_job k now fuel false) (erase m n) (some j)
  unfolding delete_job get_parent
  delete_job_erases fuel m n j found clear = rw (delete_job, found) (rw clear refl)

  delete_job_absent :
      (fuel : ℕ) (m : Jobs) (n : String)
      → get m n ≡ none
      → delete_job k now fuel m n ≡ some (m, some not_found)
  unfolding delete_job
  delete_job_absent fuel m n gone = rw (delete_job, gone) refl

  delete_job_kept :
      (fuel : ℕ) (m : Jobs) (n : String) (j : Job) (d : String) (ds : List String)
      → get m n ≡ some j
      → j.dependent_jobs ≡ d ∷ ds
      → delete_job k now fuel m n ≡ some (m, some dependents_exist)
  unfolding delete_job
  delete_job_kept fuel m n j d ds found listed = rw (delete_job, found) (rw listed refl)

  -- The job `j` is erased, and its parent's list cleared of it.
  erase-Linked :
      (fuel : ℕ) (m : Jobs) (n : String) (j : Job)
      → Linked k m
      → get m n ≡ some j
      → j.dependent_jobs ≡ []
      → (m' : Jobs) × (remove_from_parent (set_job k now (suc fuel) false) (erase m n) (some j)
          ≡ some (m', none))
        × Linked k m'
        × ((c : String) → parent_at m' c ≡ (if n == c then none else parent_at m c))
        × ((c : String) → scheduled_at m' c ≡ (if n == c then false else scheduled_at m c))
  erase-Linked fuel m n j l found clear =
      let valid = l.sound.valid n j found in
      let (m', removed, listed) =
        remove_from_parent_lem k (set_job k now (suc fuel) false) (set_job-listing k now fuel)
          (erase m n) j (erase-Sound k m n l.sound (λ c. childless_lem k m n j c l found clear))
          valid
          (missing-erase m n j (l.sound.anchored n j found)
            (rw (sym (l.sound.named n j found)) (validate-parent k j valid))) in
      let parents : (c : String) → parent_at m' c ≡ (if n == c then none else parent_at m c) =
        λ c. listed.parents c ∙ parent_at-erase m n c in
      (
        m',
        removed,
        record {
          sound = listed.sound;
          agree = λ p c nonempty. ground (
            arith,
            listed.lists_are p c nonempty,
            dependent-erase m n p c,
            parents c,
            l.agree p c nonempty,
            childless_lem k m n j c l found clear,
            parent_at_found m n j found,
            l.sound.named n j found,
            ==_iff n p,
            ==_iff n c,
            ==_iff c j.name,
            ==_iff p j.parent_job,
          );
        },
        parents,
        λ c. listed.schedules c ∙ scheduled_at-erase m n c,
      )

  -- In a store whose parents and lists of dependent jobs agree, `DeleteJob` returns, with fuel for one
  -- call of `SetJob`. It refuses to delete exactly the jobs that are named as a parent by a job of the
  -- store and the names that are not there, and changes no parent then; else the job is gone, and every
  -- other job keeps its parent. Nor does another job change whether it is enabled and has no parent.
  -- Parents and lists agree afterwards.
  pub delete_job-Linked :
      (fuel : ℕ) (m : Jobs) (n : String)
      → Linked k m
      → (m' : Jobs) × (delete_job k now (suc fuel) m n ≡ some (m', removal m n))
        × Linked k m'
        × ((c : String)
            → parent_at m' c ≡ (if is_none (removal m n) && n == c then none else parent_at m c))
        × ((c : String)
            → scheduled_at m' c
              ≡ (if is_none (removal m n) && n == c then false else scheduled_at m c))
        × ((removal m n ≡ some dependents_exist)
            ↔ ((truthy n ≡ true) × (d : String) × (parent_at m d ≡ some n)))
  unfolding is_none
  delete_job-Linked fuel m n l = elim (removal_cases m n) [
    | inl (gone, e) ↦ (
      m,
      delete_job_absent (suc fuel) m n gone ∙ sym (ap (λ o. some (m, o)) e),
      l,
      λ c. rw e refl,
      λ c. rw e refl,
      removal_iff k m n l,
    )
    | inr (inl (j, found, clear, e)) ↦
        let (m', removed, tree, parents, runs) = erase-Linked fuel m n j l found clear in
        (
          m',
          delete_job_erases (suc fuel) m n j found clear ∙ removed ∙ sym (ap (λ o. some (m', o)) e),
          tree,
          λ c. rw e (parents c),
          λ c. rw e (runs c),
          removal_iff k m n l,
        )
    | inr (inr (j, d, ds, found, listed, e)) ↦ (
      m,
      delete_job_kept (suc fuel) m n j d ds found listed ∙ sym (ap (λ o. some (m, o)) e),
      l,
      λ c. rw e refl,
      λ c. rw e refl,
      removal_iff k m n l,
    )
  ]
