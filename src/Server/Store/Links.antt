-- ===== src/Server/Store/Links.antt =====
-- The two ways in which the store keeps the tree of jobs, each job's parent and each parent's list of
-- dependent jobs, as two functions of the jobs, and what saving a job does to them.
use phan_tan_dkron_giuaky.Common.{
  ◌≡◌, refl, Bool, true, false, not, ◌&&◌, ◌||◌, ◌↔◌, Option, some, none, List, [], ◌∷◌, String,
  ◌==◌, ==_iff, string_eq, get, get-put, put, has, Distinct, keys, if◌then◌else◌, arith,
}
use phan_tan_dkron_giuaky.Diagram.Defs.{truthy}
use phan_tan_dkron_giuaky.Server.Job.{Job, validate, stored}
use phan_tan_dkron_giuaky.Server.Cron.{Checks}
use phan_tan_dkron_giuaky.Server.Store.{Jobs, without, parent_missing}

-- The parent of the job `c`, `none` where there is no such job.
pub parent_at : Jobs → String → Option String
parent_at m c = elim (get m c) [ none ↦ none | some j ↦ some j.parent_job ]

-- Whether `c` is in the list of the job `p`.
pub dependent : Jobs → String → String → Bool
dependent m p c = elim (get m p) [ none ↦ false | some j ↦ has j.dependent_jobs c ]

-- Whether the job is run by its own schedule: it is not disabled and has no parent.
unfoldable pub scheduled : Job → Bool
scheduled j = not (j.disabled || truthy j.parent_job)

-- Whether `c` is such a job.
pub scheduled_at : Jobs → String → Bool
scheduled_at m c = elim (get m c) [ none ↦ false | some j ↦ scheduled j ]

pub scheduled_at-put :
    (m : Jobs) (n : String) (j : Job) (c : String)
    → scheduled_at (put m n j) c ≡ (if n == c then scheduled j else scheduled_at m c)
unfolding scheduled_at
scheduled_at-put m n j c = ground (arith, get-put m n c j)

pub scheduled_at_lem :
    (m : Jobs) (c : String)
    → scheduled_at m c ≡ (elim (get m c) [ none ↦ false | some j ↦ scheduled j ])
unfolding scheduled_at
scheduled_at_lem m c = refl

pub has-without :
    (n : String) (ds : List String) (c : String) → has (without n ds) c ≡ (not (n == c) && has ds c)
unfolding without has
has-without n [] c = ground arith
has-without n (d ∷ ds) c = ground (arith, ==_iff d n, ==_iff n c, ==_iff d c, has-without n ds c)

pub parent_at-put :
    (m : Jobs) (n : String) (j : Job) (c : String)
    → parent_at (put m n j) c ≡ (if n == c then some j.parent_job else parent_at m c)
unfolding parent_at
parent_at-put m n j c = ground (arith, get-put m n c j)

pub dependent-put :
    (m : Jobs) (n : String) (j : Job) (p c : String)
    → dependent (put m n j) p c ≡ (if n == p then has j.dependent_jobs c else dependent m p c)
unfolding dependent
dependent-put m n j p c = ground (arith, get-put m n p j)

pub parent_at_found :
    (m : Jobs) (c : String) (j : Job) → get m c ≡ some j → parent_at m c ≡ some j.parent_job
unfolding parent_at
parent_at_found m c j found = ground arith

pub parent_at_lem :
    (m : Jobs) (c : String)
    → parent_at m c ≡ (elim (get m c) [ none ↦ none | some j ↦ some j.parent_job ])
unfolding parent_at
parent_at_lem m c = refl

pub dependent_found :
    (m : Jobs) (p c : String) (j : Job)
    → get m p ≡ some j
    → dependent m p c ≡ has j.dependent_jobs c
unfolding dependent
dependent_found m p c j found = ground arith

pub dependent_lem :
    (m : Jobs) (p c : String)
    → dependent m p c ≡ (elim (get m p) [ none ↦ false | some j ↦ has j.dependent_jobs c ])
unfolding dependent
dependent_lem m p c = refl

module _ (k : Checks) where
  -- No name stands twice. Every job stands under its name, would be let in again, and has a
  -- parent in the store if it names one.
  pub record Sound (m : Jobs) : Type 0 where
    pub distinct : Distinct (keys m)
    pub named : (n : String) (j : Job) → get m n ≡ some j → j.name ≡ n
    pub valid : (n : String) (j : Job) → get m n ≡ some j → validate k j ≡ none
    pub anchored : (n : String) (j : Job) → get m n ≡ some j → parent_missing m j ≡ false

  -- The parents and the lists of dependent jobs tell the same tree.
  pub record Linked (m : Jobs) : Type 0 where
    pub sound : Sound m
    pub agree :
        (p c : String) → truthy p ≡ true → (dependent m p c ≡ true) ↔ (parent_at m c ≡ some p)

  -- What `Validate` does not look at.
  pub validate-stored : (j : Job) → validate k (stored j) ≡ validate k j
  unfolding validate stored
  validate-stored j = refl
