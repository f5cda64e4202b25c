-- ===== src/Server/Store/Resave.antt =====
-- `SetJob` of `dkron/dkron/store.go` on a job that was read from the store, with another list of
-- dependent jobs, as `removeFromParent` and `addToParent` call it.
use phan_tan_dkron_giuaky.Common.{
  ℕ, suc, ◌≡◌, refl, ◌∙◌, ap, Bool, true, false, Option, some, none, List, [], ◌∷◌, String, ℤ,
  ==_iff, string_eq, get, put, if◌then◌else◌, arith, leb_ℤ,
}
use phan_tan_dkron_giuaky.Diagram.Defs.{truthy}
use phan_tan_dkron_giuaky.Server.Job.{Job, validate, stored, after}
use phan_tan_dkron_giuaky.Server.Cron.{Checks}
use phan_tan_dkron_giuaky.Server.Store.{
  Jobs, ok, with_next, merge, prepare, parent_missing, parent_of_saved, Outcome, relink, set_job,
}

after_irrefl : (t : Option ℤ) → after t t ≡ false
unfolding after
after_irrefl none = refl
after_irrefl (some t) = ground arith

leb_ℤ_refl : (t : ℤ) → leb_ℤ t t ≡ true
leb_ℤ_refl t = ground arith

same_branches : {A : Type 0} (b : Bool) (x : A) → (if b then x else x) ≡ x
same_branches b x = ground arith

abbrev pub listing : Job → List String → Job
listing j ds = record j { dependent_jobs = ds }

kept : (ds es : List String) → (elim ds [ [] ↦ es | d ∷ ds' ↦ es ]) ≡ es
kept [] es = refl
kept (d ∷ ds) es = refl

merge-listing : (j : Job) (ds : List String) → merge false j (listing j ds) ≡ listing j ds
unfolding merge
merge-listing j ds = rw (after_irrefl j.last_error) (
    rw (after_irrefl j.last_success) (
      rw (leb_ℤ_refl j.success_count) (
        rw (leb_ℤ_refl j.error_count) (
          rw (same_branches (truthy j.status) j.status)
            (ap (listing j) (kept j.dependent_jobs ds))))))

pub validate-listing :
    (k : Checks) (j : Job) (ds : List String) → validate k (listing j ds) ≡ validate k j
unfolding validate
validate-listing k j ds = refl

pub missing-listing :
    (m : Jobs) (j : Job) (ds : List String) → parent_missing m (listing j ds) ≡ parent_missing m j
unfolding parent_missing
missing-listing m j ds = refl

pub relink_same :
    (save : Jobs → Job → Outcome) (m : Jobs) (ej : Option Job) (j : Job)
    → j.parent_job ≡ parent_of_saved ej
    → relink save m ej j ≡ some (m, none)
unfolding relink
relink_same save m ej j same = rw ((==_iff j.parent_job (parent_of_saved ej)).1 same) refl

module _ (k : Checks) (now : ℤ) where
  prepare-listing :
      (j : Job) (ds : List String) → prepare k now false (some j) (listing j ds) ≡ ok (listing j ds)
  unfolding prepare with_next
  prepare-listing j ds =
      rw (merge-listing j ds)
        (rw ((==_iff j.schedule j.schedule).1 refl) (rw (leb_ℤ_refl j.next) refl))

  -- One call of itself is all that `SetJob` takes here.
  pub set_job-listing :
      (fuel : ℕ) (m : Jobs) (j : Job) (ds : List String)
      → get m j.name ≡ some j
      → validate k j ≡ none
      → parent_missing m j ≡ false
      → set_job k now (suc fuel) false m (listing j ds)
        ≡ some (put m j.name (stored (listing j ds)), none)
  unfolding set_job
  set_job-listing fuel m j ds found valid anchored =
      rw (set_job, validate-listing k j ds ∙ valid)
        (rw (missing-listing m j ds ∙ anchored) (
          rw found (
            rw (prepare-listing j ds)
              (rw found (relink_same (set_job k now fuel false) _ (some j) (listing j ds) refl)))))
