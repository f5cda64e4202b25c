-- ===== src/Server/Store/Parents.antt =====
-- Which jobs have their parent in the store, and what `Validate` of `dkron/dkron/job.go` says of it.
use phan_tan_dkron_giuaky.Common.{
  ◌≡◌, refl, true, false, inl, inr, some, none, String, ◌==◌, ==_iff, string_eq, get, get-put, put,
  Option-cases, arith,
}
use phan_tan_dkron_giuaky.Diagram.Defs.{truthy}
use phan_tan_dkron_giuaky.Server.Job.{Job, validate, stored}
use phan_tan_dkron_giuaky.Server.Cron.{Checks}
use phan_tan_dkron_giuaky.Server.Store.{Jobs, ok, get_parent, parent_missing}
use phan_tan_dkron_giuaky.Server.Store.Links.{parent_at, parent_at_lem}

pub missing-put :
    (m : Jobs) (n : String) (j c : Job)
    → parent_missing m c ≡ false
    → parent_missing (put m n j) c ≡ false
unfolding parent_missing
missing-put m n j c h = ground (arith, get-put m n c.parent_job j)

pub missing-name :
    (m : Jobs) (c j : Job) → c.parent_job ≡ j.parent_job → parent_missing m c ≡ parent_missing m j
unfolding parent_missing
missing-name m c j same = rw same refl

pub missing-stored : (m : Jobs) (j : Job) → parent_missing m (stored j) ≡ parent_missing m j
unfolding parent_missing stored
missing-stored m j = refl

-- A job whose parent is itself is refused.
pub validate-parent :
    (k : Checks) (j : Job) → validate k j ≡ none → (j.parent_job == j.name) ≡ false
unfolding validate
validate-parent k j h = ground arith

pub validate-name : (k : Checks) (j : Job) → validate k j ≡ none → truthy j.name ≡ true
unfolding validate
validate-name k j h = ground arith

-- The parent that a job of the store names
pub parent_found :
    (k : Checks) (m : Jobs) (c : Job)
    → validate k c ≡ none
    → parent_missing m c ≡ false
    → truthy c.parent_job ≡ true
    → (p : Job) × (get m c.parent_job ≡ some p) × (get_parent m c ≡ ok p)
unfolding get_parent parent_missing
parent_found k m c valid anchored given = elim (Option-cases (get m c.parent_job)) [
  | inl gone ↦ let no : true ≡ false = ground arith in cc
  | inr (p, found) ↦ (
    p,
    found,
    ground
        (arith, validate-parent k c valid, ==_iff c.name c.parent_job, ==_iff c.parent_job c.name),
  )
]

pub missing-parents :
    (m m' : Jobs) (c : Job)
    → ((x : String) → parent_at m' x ≡ parent_at m x)
    → parent_missing m' c ≡ parent_missing m c
unfolding parent_missing
missing-parents m m' c same =
    ground (arith, parent_at_lem m c.parent_job, parent_at_lem m' c.parent_job, same c.parent_job)
