-- ===== src/Server/Store/Prepare.antt =====
-- The transaction of `SetJob` of `dkron/dkron/store.go`: it never fails on a job that `Validate` lets
-- in, and keeps the list of dependent jobs.
use phan_tan_dkron_giuaky.Common.{
  ◌≡◌, refl, ◌∙◌, Bool, true, false, inl, inr, Option, some, none, String, ℤ, pos, ◌==◌, string_eq,
  has, Bool-cases, Option-cases, List-cases, arith, leb_ℤ,
}
use phan_tan_dkron_giuaky.Server.Job.{Job, validate, get_next}
use phan_tan_dkron_giuaky.Server.Cron.{Checks}
use phan_tan_dkron_giuaky.Server.Store.Links.{scheduled}
use phan_tan_dkron_giuaky.Server.Store.{ok, with_next, merge, prepare}

-- The job that is saved, but for its next time
merged : Bool → Option Job → Job → Job
merged copy none j = j
merged copy (some ej) j = merge copy ej j

module _ (k : Checks) (now : ℤ) where
  -- What `Validate` lets in has a next time.
  get_next_total : (j : Job) → validate k j ≡ none → (t : ℤ) × (get_next k now j ≡ some t)
  unfolding validate get_next
  get_next_total j valid = elim (Option-cases (get_next k now j)) [
    | inl gone ↦ let no : true ≡ false = ground arith in cc
    | inr found ↦ found
  ]

  with_next_lem :
      (schedule : String) (next : ℤ) (j : Job)
      → validate k j ≡ none
      → (t : ℤ) × (with_next k now schedule next j ≡ ok (record j { next = t }))
  unfolding with_next
  with_next_lem schedule next j valid = elim (Bool-cases (j.schedule == schedule)) [
    | inl same ↦ elim (Bool-cases (leb_ℤ next j.next)) [
      | inl later ↦ (j.next, rw same (rw later refl))
      | inr before ↦ (next, rw same (rw before refl))
    ]
    | inr other ↦ let (t, found) = get_next_total j valid in (t, rw other (rw found refl))
  ]

  validate-merged :
      (copy : Bool) (ej : Option Job) (j : Job) (t : ℤ)
      → validate k (record (merged copy ej j) { next = t }) ≡ validate k j
  unfolding merged merge validate
  validate-merged copy none j t = refl
  validate-merged copy (some ej) j t = refl

  prepare_lem :
      (copy : Bool) (ej : Option Job) (j : Job)
      → validate k j ≡ none
      → (t : ℤ) × (prepare k now copy ej j ≡ ok (record (merged copy ej j) { next = t }))
  unfolding prepare merged
  prepare_lem copy none j valid = with_next_lem "" (pos 0) j valid
  prepare_lem copy (some ej) j valid =
      with_next_lem ej.schedule ej.next (merge copy ej j)
        (validate-merged copy (some ej) j j.next ∙ valid)

-- Whether `x` is in the list of the saved job.
abbrev pub listed_in : Option Job → String → Bool
listed_in none x = false
listed_in (some e) x = has e.dependent_jobs x

-- The list of dependent jobs stays, if the job comes with no others.
merged-dependents :
    (o : Option Job) (j : Job) (x : String)
    → (has j.dependent_jobs x ≡ true → listed_in o x ≡ true)
    → has (merged true o j).dependent_jobs x ≡ listed_in o x
unfolding merged merge has
merged-dependents none j x within = ground arith
merged-dependents (some e) j x within = elim (List-cases e.dependent_jobs) [
  | inl clear ↦ rw clear (ground arith)
  | inr (d, ds, listed) ↦ rw listed refl
]

merged-names : (copy : Bool) (o : Option Job) (j : Job) → (merged copy o j).name ≡ j.name
unfolding merged merge
merged-names copy none j = refl
merged-names copy (some e) j = refl

merged-parents :
    (copy : Bool) (o : Option Job) (j : Job) → (merged copy o j).parent_job ≡ j.parent_job
unfolding merged merge
merged-parents copy none j = refl
merged-parents copy (some e) j = refl

merged-scheduled :
    (copy : Bool) (o : Option Job) (j : Job) → scheduled (merged copy o j) ≡ scheduled j
unfolding merged merge scheduled
merged-scheduled copy none j = refl
merged-scheduled copy (some e) j = refl

-- What the transaction of `SetJob` saves in place of `o`.
pub prepared_lem :
    (k : Checks) (now : ℤ) (o : Option Job) (j : Job)
    → validate k j ≡ none
    → ((x : String) → has j.dependent_jobs x ≡ true → listed_in o x ≡ true)
    → (j' : Job) × (prepare k now true o j ≡ ok j')
      × (j'.name ≡ j.name)
      × (j'.parent_job ≡ j.parent_job)
      × (scheduled j' ≡ scheduled j)
      × (validate k j' ≡ none)
      × ((x : String) → has j'.dependent_jobs x ≡ listed_in o x)
unfolding scheduled
prepared_lem k now o j valid within =
    let (t, prepared) = prepare_lem k now true o j valid in
    (
      record (merged true o j) { next = t },
      prepared,
      merged-names true o j,
      merged-parents true o j,
      merged-scheduled true o j,
      validate-merged k now true o j t ∙ valid,
      λ x. merged-dependents o j x (within x),
    )
