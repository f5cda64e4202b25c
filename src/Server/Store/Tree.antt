-- ===== src/Server/Store/Tree.antt =====
-- `SetJob` and `DeleteJob` of `dkron/dkron/store.go`: which errors they give, and that every sequence
-- of them keeps the two sides of the tree of jobs in agreement.
use phan_tan_dkron_giuaky.Common.{
  ℕ, suc, ◌≡◌, refl, ◌∙◌, sym, ap, true, false, ◌&&◌, inl, inr, Option, some, none, String, ℤ, ◌==◌,
  string_eq, get, put, has, if◌then◌else◌, Bool-cases, Option-cases, arith,
}
use phan_tan_dkron_giuaky.Server.Job.{Job, Error, validate, stored, parent_not_found}
use phan_tan_dkron_giuaky.Server.Cron.{Checks}
use phan_tan_dkron_giuaky.Server.Store.{Jobs, ok, prepare, parent_missing, relink, set_job}
use phan_tan_dkron_giuaky.Server.Store.Links.{
  parent_at, dependent, dependent_lem, Linked, scheduled, scheduled_at,
}
use phan_tan_dkron_giuaky.Server.Job.{is_none}
use phan_tan_dkron_giuaky.Server.Store.Resave.{set_job-listing}
use phan_tan_dkron_giuaky.Server.Store.Parents.{missing-name}
use phan_tan_dkron_giuaky.Server.Store.Prepare.{listed_in, prepared_lem}
use phan_tan_dkron_giuaky.Server.Store.Saves.{commit-Linked}

-- The error of `SetJob`, if any
pub refusal : Checks → Jobs → Job → Option Error
refusal k m j = elim (validate k j) [
  | some e ↦ some e
  | none ↦ if parent_missing m j then some parent_not_found else none
]

pub refusal_valid :
    (k : Checks) (m : Jobs) (j : Job)
    → validate k j ≡ none
    → refusal k m j ≡ (if parent_missing m j then some parent_not_found else none)
unfolding refusal
refusal_valid k m j valid = rw (refusal, valid) refl

dependent-listed : (m : Jobs) (p c : String) → dependent m p c ≡ listed_in (get m p) c
dependent-listed m p c = elim (Option-cases (get m p)) [
  | inl gone ↦ dependent_lem m p c ∙ rw gone refl
  | inr (j, found) ↦ dependent_lem m p c ∙ rw found refl
]

listed :
    (m : Jobs) (j : Job)
    → ((x : String) → has j.dependent_jobs x ≡ true → dependent m j.name x ≡ true)
    → (x : String) → has j.dependent_jobs x ≡ true
    → listed_in (get m j.name) x ≡ true
listed m j within x claims = sym (dependent-listed m j.name x) ∙ within x claims

module _ (k : Checks) (now : ℤ) where
  set_job_commits :
      (fuel : ℕ) (m : Jobs) (j j' : Job)
      → validate k j ≡ none
      → parent_missing m j ≡ false
      → prepare k now true (get m j.name) j ≡ ok j'
      → set_job k now (suc fuel) true m j
        ≡ relink (set_job k now fuel false) (put m j.name (stored j')) (get m j.name) j'
  unfolding set_job
  set_job_commits fuel m j j' valid anchored prepared =
      rw (set_job, valid) (rw anchored (rw prepared refl))

  set_job_saves :
      (fuel : ℕ) (m : Jobs) (j : Job)
      → Linked k m
      → ((x : String) → has j.dependent_jobs x ≡ true → dependent m j.name x ≡ true)
      → validate k j ≡ none
      → parent_missing m j ≡ false
      → (m' : Jobs) × (set_job k now (suc (suc fuel)) true m j ≡ some (m', none))
        × Linked k m'
        × ((c : String)
            → parent_at m' c ≡ (if j.name == c then some j.parent_job else parent_at m c))
        × ((c : String)
            → scheduled_at m' c ≡ (if j.name == c then scheduled j else scheduled_at m c))
  set_job_saves fuel m j l within valid anchored =
      let (j', prepared, names, parent, schedules, valid', lists) =
        prepared_lem k now (get m j.name) j valid (listed m j within) in
      let (m', linked, tree, parents, runs) =
        commit-Linked k (set_job k now (suc fuel) false) (set_job-listing k now fuel) m j.name
          j.parent_job (scheduled j) j' l names parent schedules valid'
          (missing-name m j' j parent ∙ anchored)
          (λ x. lists x ∙ sym (dependent-listed m j.name x)) in
      (m', set_job_commits (suc fuel) m j j' valid anchored prepared ∙ linked, tree, parents, runs)

  set_job_refuses :
      (fuel : ℕ) (m : Jobs) (j : Job) (e : Error)
      → refusal k m j ≡ some e
      → set_job k now (suc fuel) true m j ≡ some (m, some e)
  unfolding refusal set_job
  set_job_refuses fuel m j e refused = elim (Option-cases (validate k j)) [
    | inl valid ↦ elim (Bool-cases (parent_missing m j)) [
      | inl gone ↦
          let same : some parent_not_found ≡ some e = ground arith in
          rw (set_job, valid) (rw gone (ap (λ o. some (m, o)) same))
      | inr there ↦ let no : true ≡ false = ground arith in cc
    ]
    | inr (e', invalid) ↦
        let same : some e' ≡ some e = ground arith in
        rw (set_job, invalid) (ap (λ o. some (m, o)) same)
  ]

  -- In a store whose parents and lists of dependent jobs agree, `SetJob` on a job whose
  -- own list names no others than the list in the store returns, with fuel for one call of itself:
  -- with the error of `Validate` or that the parent is not found, and then no job has another parent, or
  -- with no error, and then the job has the parent that it names and every other job the one it had.
  -- Likewise for whether a job is enabled and has no parent. Parents and lists agree afterwards.
  pub set_job-Linked :
      (fuel : ℕ) (m : Jobs) (j : Job)
      → Linked k m
      → ((x : String) → has j.dependent_jobs x ≡ true → dependent m j.name x ≡ true)
      → (m' : Jobs) × (set_job k now (suc (suc fuel)) true m j ≡ some (m', refusal k m j))
        × Linked k m'
        × ((c : String)
            → parent_at m' c ≡ (
                if is_none (refusal k m j) && j.name == c
                then some j.parent_job
                else parent_at m c))
        × ((c : String)
            → scheduled_at m' c
              ≡ (if is_none (refusal k m j) && j.name == c then scheduled j else scheduled_at m c))
  unfolding refusal is_none
  set_job-Linked fuel m j l within = elim (Option-cases (refusal k m j)) [
    | inl accepted ↦
        let valid : validate k j ≡ none = ground arith in
        let anchored : parent_missing m j ≡ false = ground arith in
        let (m', saved, tree, parents, runs) = set_job_saves fuel m j l within valid anchored in
        (m', rw accepted saved, tree, λ c. rw accepted (parents c), λ c. rw accepted (runs c))
    | inr (e, refused) ↦ (
      m,
      set_job_refuses (suc fuel) m j e refused ∙ sym (ap (λ o. some (m, o)) refused),
      l,
      λ c. rw refused refl,
      λ c. rw refused refl,
    )
  ]
