-- ===== src/Server/History.antt =====
-- `dkron/dkron/store.go`: the contents of the store that sequences of its calls lead to, from an empty
-- one. The list of dependent jobs of a job that comes from outside, if it has one, names no others than
-- the one in the store.
use phan_tan_dkron_giuaky.Common.{
  ℕ, suc, ◌≡◌, refl, sym, ap, ◌∙◌, Bool, true, false, Option, none, some, inl, inr, List, [], ◌∷◌,
  String, ℤ, string_eq, int_eq, codes_eq, get, has, subst, if◌then◌else◌, Bool-cases, Option-cases,
  arith,
}
use phan_tan_dkron_giuaky.Server.Job.{Job, Error, validate}
use phan_tan_dkron_giuaky.Server.Cron.{Checks}
use phan_tan_dkron_giuaky.Server.Store.{Jobs, set_job, delete_job}
use phan_tan_dkron_giuaky.Server.Store.Links.{dependent, dependent_lem, parent_at_lem, Linked}
use phan_tan_dkron_giuaky.Server.Store.Tree.{set_job-Linked}
use phan_tan_dkron_giuaky.Server.Store.Deletes.{delete_job-Linked}
use phan_tan_dkron_giuaky.Server.Store.Restamp.{Alike, restamp-Linked}
use phan_tan_dkron_giuaky.Server.Executions.Done.{done_cases}
use phan_tan_dkron_giuaky.Server.Executions.{
  Execution, set_execution, Db, set_execution_done, delete_executions, count_execution, counted,
  job_prefix, delete_prefix,
}

-- Whether the transaction of `DeleteJob` deletes the job.
unfoldable is_deleted : Jobs → String → Bool
is_deleted m name = elim (get m name) [
  | none ↦ false
  | some j ↦ elim j.dependent_jobs [ [] ↦ true | d ∷ ds ↦ false ]
]

module _ (k : Checks) (now : ℤ) where
  -- `SetJob`, and `DeleteJob`, which deletes the executions with the job.
  unfoldable pub set_job_in : ℕ → Db → Job → Option (Db × Option Error)
  set_job_in fuel db j = elim (set_job k now fuel true db.jobs j) [
    | none ↦ none
    | some r ↦ some (record db { jobs = r.0 }, r.1)
  ]

  unfoldable pub delete_job_in : ℕ → Db → String → Option (Db × Option Error)
  unfolding is_deleted
  delete_job_in fuel db name = elim (delete_job k now fuel db.jobs name) [
    | none ↦ none
    | some r ↦ some (
      record db {
        jobs = r.0;
        executions =
            if is_deleted db.jobs name
            then delete_prefix (job_prefix name) db.executions
            else db.executions;
      },
      r.1,
    )
  ]

-- A call that is over, with whatever error; `now` is its time.
pub data Step (k : Checks) (db db' : Db) : Type 0 where
  saved :
      (now : ℤ) (fuel : ℕ) (j : Job) (e : Option Error)
      → ((x : String) → has j.dependent_jobs x ≡ true → dependent db.jobs j.name x ≡ true)
      → set_job_in k now (suc (suc fuel)) db j ≡ some (db', e)
      → Step k db db'
  deleted :
      (now : ℤ) (fuel : ℕ) (name : String) (e : Option Error)
      → delete_job_in k now (suc fuel) db name ≡ some (db', e)
      → Step k db db'
  recorded :
      (sort : List Execution → List Execution) (e : Execution)
      → record db { executions = set_execution sort db.executions e } ≡ db'
      → Step k db db'
  done : (e : Execution) → (set_execution_done db e).0 ≡ db' → Step k db db'
  cleared : (name : String) → (delete_executions db name).0 ≡ db' → Step k db db'

abbrev pub empty : Db
empty = record { jobs = []; executions = []; stats = [] }

pub data History (k : Checks) : Db → Type 0 where
  start : History k empty
  next : {db db' : Db} → History k db → Step k db db' → History k db'

pub empty-Linked : (k : Checks) → Linked k []
unfolding get
empty-Linked k = record {
  sound = record {
    distinct = tt;
    named = λ n j found. cc found;
    valid = λ n j found. cc found;
    anchored = λ n j found. cc found;
  };
  agree = λ p c nonempty. ground (arith, dependent_lem [] p c, parent_at_lem [] c);
}

module _ (k : Checks) (db : Db) (l : Linked k db.jobs) where
  set_job_in-Linked :
      (db' : Db) (now : ℤ) (fuel : ℕ) (j : Job) (e : Option Error)
      → ((x : String) → has j.dependent_jobs x ≡ true → dependent db.jobs j.name x ≡ true)
      → set_job_in k now (suc (suc fuel)) db j ≡ some (db', e)
      → Linked k db'.jobs
  unfolding set_job_in
  set_job_in-Linked db' now fuel j e within ran =
      let (m, ran_jobs, tree, parents, runs) = set_job-Linked k now fuel db.jobs j l within in
      let same : m ≡ db'.jobs = ground (arith, ran, ran_jobs) in subst (Linked k) same tree

  delete_job_in-Linked :
      (db' : Db) (now : ℤ) (fuel : ℕ) (name : String) (e : Option Error)
      → delete_job_in k now (suc fuel) db name ≡ some (db', e)
      → Linked k db'.jobs
  unfolding delete_job_in
  delete_job_in-Linked db' now fuel name e ran =
      let (m, ran_jobs, tree, parents, runs, kept) = delete_job-Linked k now fuel db.jobs name l in
      let same : m ≡ db'.jobs = ground (arith, ran, ran_jobs) in subst (Linked k) same tree

  counted-Alike :
      (j : Job) (e : Execution) (s : String) → Alike k j (record (counted j e) { status = s })
  unfolding counted validate
  counted-Alike j e s = elim (Bool-cases e.success) [
    | inl good ↦ rw good (record { names = refl; parents = refl; lists = refl; validity = refl })
    | inr bad ↦ rw bad (record { names = refl; parents = refl; lists = refl; validity = refl })
  ]

  count_execution-Linked :
      (j : Job) (e : Execution)
      → get db.jobs j.name ≡ some j
      → Linked k (count_execution db j e).jobs
  unfolding count_execution
  count_execution-Linked j e found =
      restamp-Linked k db.jobs j.name j _ l found (counted-Alike j e _)

  pub set_execution_done-Linked : (e : Execution) → Linked k (set_execution_done db e).0.jobs
  set_execution_done-Linked e = elim (done_cases db e) [
    | inl same ↦ subst (Linked k) (sym same) l
    | inr (j, found, counts) ↦
        let own = l.sound.named e.job_name j found in
        subst (λ d. Linked k d.jobs) (sym counts)
          (count_execution-Linked j e (ap (get db.jobs) own ∙ found))
  ]

  pub delete_executions-Linked : (name : String) → Linked k (delete_executions db name).0.jobs
  unfolding delete_executions validate
  delete_executions-Linked name = elim (Option-cases (get db.jobs name)) [
    | inl gone ↦ rw (delete_executions, gone) l
    | inr (j, found) ↦
        let own = l.sound.named name j found in
        rw (delete_executions, found)
          (restamp-Linked k db.jobs j.name j _ l (ap (get db.jobs) own ∙ found)
            (record { names = refl; parents = refl; lists = refl; validity = refl }))
  ]

Step-Linked : (k : Checks) (db db' : Db) → Linked k db.jobs → Step k db db' → Linked k db'.jobs
Step-Linked k db db' l (saved now fuel j e within ran) =
    set_job_in-Linked k db l db' now fuel j e within ran
Step-Linked k db db' l (deleted now fuel name e ran) =
    delete_job_in-Linked k db l db' now fuel name e ran
Step-Linked k db db' l (recorded sort e ran) = subst (λ d. Linked k d.jobs) ran l
Step-Linked k db db' l (done e ran) =
    subst (λ d. Linked k d.jobs) ran (set_execution_done-Linked k db l e)
Step-Linked k db db' l (cleared name ran) =
    subst (λ d. Linked k d.jobs) ran (delete_executions-Linked k db l name)

-- Every sequence of calls of `SetJob`, on jobs whose list of dependent jobs names no others than the
-- list in the store, of `DeleteJob`, `SetExecution`, `SetExecutionDone` and `DeleteExecutions`, whatever their errors, leads
-- from an empty store to one in which parents and lists of dependent jobs agree: of two names that are
-- not empty, `c` is in the list of `p` exactly when `p` is the parent of `c`. Every job stands once,
-- under its name, would pass `Validate`, and has its parent in the store.
pub History-Linked : (k : Checks) (db : Db) → History k db → Linked k db.jobs
History-Linked k db start = empty-Linked k
History-Linked k db (next h s) = Step-Linked k _ db (History-Linked k _ h) s
