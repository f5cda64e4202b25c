-- ===== src/Server/Leader/Untouched.antt =====
-- What the scheduler looks at in the jobs of `dkron/dkron/store.go`, which the end of an execution, the
-- removal of a job's executions, and `reconcileRunningExecutionOrphans` of `dkron/dkron/leader.go` leave
-- as it is.
use phan_tan_dkron_giuaky.Common.{
  ℕ, ◌≡◌, refl, ap, ◌∙◌, inl, inr, List, [], ◌∷◌, String, ℤ, ◌==◌, ==_iff, string_eq, if◌then◌else◌,
  get, Bool-cases, Option-cases, arith,
}
use phan_tan_dkron_giuaky.Server.Job.{Job}
use phan_tan_dkron_giuaky.Server.Cron.{Checks}
use phan_tan_dkron_giuaky.Server.Store.Links.{
  Linked, scheduled, scheduled_at, scheduled_at-put, scheduled_at_lem,
}
use phan_tan_dkron_giuaky.Server.Executions.{
  Execution, Db, set_execution_done, delete_executions, list_executions, list_prefix,
  count_execution, counted,
}
use phan_tan_dkron_giuaky.Server.Executions.Orphans.{
  is_stale, marked, running, mark_stale, clean_up, reconcile,
}
use phan_tan_dkron_giuaky.Server.Executions.Done.{done_cases}
use phan_tan_dkron_giuaky.Server.History.{set_execution_done-Linked}

-- The end of an execution changes nothing that the scheduler looks at.
scheduled-counted :
    (j : Job) (e : Execution) (s : String)
    → scheduled (record (counted j e) { status = s }) ≡ scheduled j
unfolding counted scheduled
scheduled-counted j e s = elim (Bool-cases e.success) [
  | inl good ↦ rw good refl
  | inr bad ↦ rw bad refl
]

scheduled_at-count_execution :
    (db : Db) (j : Job) (e : Execution) (i : String)
    → scheduled_at (count_execution db j e).jobs i
      ≡ (if j.name == i then scheduled j else scheduled_at db.jobs i)
unfolding count_execution
scheduled_at-count_execution db j e i =
    scheduled_at-put db.jobs j.name _ i
    ∙ ap (λ runs. if j.name == i then runs else scheduled_at db.jobs i) (scheduled-counted j e _)

pub scheduled_at-done :
    (k : Checks) (db : Db) (e : Execution)
    → Linked k db.jobs
    → (i : String) → scheduled_at (set_execution_done db e).0.jobs i ≡ scheduled_at db.jobs i
scheduled_at-done k db e l i = elim (done_cases db e) [
  | inl same ↦ ap (λ m. scheduled_at m i) same
  | inr (j, found, counts) ↦
      let named = l.sound.named e.job_name j found in
      ap (λ (d : Db). scheduled_at d.jobs i) counts
      ∙ ground (
        arith,
        scheduled_at-count_execution db j e i,
        scheduled_at_lem db.jobs i,
        ==_iff j.name i,
        named,
      )
]

-- Nor does the removal of a job's executions.
pub scheduled_at-cleared :
    (k : Checks) (db : Db) (name : String)
    → Linked k db.jobs
    → (i : String) → scheduled_at (delete_executions db name).0.jobs i ≡ scheduled_at db.jobs i
unfolding scheduled delete_executions
scheduled_at-cleared k db name l i = elim (Option-cases (get db.jobs name)) [
  | inl gone ↦ rw (delete_executions, gone) refl
  | inr (j, found) ↦
      let named = l.sound.named name j found in
      rw (delete_executions, found)
        (scheduled_at-put db.jobs j.name _ i
          ∙ ground (arith, scheduled_at_lem db.jobs i, ==_iff j.name i, named))
]

-- What the ends of stale executions leave as it is: the links of the jobs and what is scheduled
pub record Kept (k : Checks) (db db' : Db) : Type 0 where
  pub linked : Linked k db'.jobs
  pub same : (i : String) → scheduled_at db'.jobs i ≡ scheduled_at db.jobs i

mark_stale-Kept :
    (k : Checks) (active : List (List ℕ)) (now : ℤ) (db : Db) (es : List Execution)
    → Linked k db.jobs
    → Kept k db (mark_stale active now db es)
unfolding mark_stale
mark_stale-Kept k active now db [] l = record { linked = l; same = λ i. refl }
mark_stale-Kept k active now db (e ∷ es) l = elim (Bool-cases (is_stale active now e)) [
  | inl stale ↦
      let rest =
        mark_stale-Kept k active now (set_execution_done db (marked now e)).0 es
          (set_execution_done-Linked k db l (marked now e)) in
      rw stale (record {
        linked = rest.linked;
        same = λ i. rest.same i ∙ scheduled_at-done k db (marked now e) l i;
      })
  | inr fresh ↦ rw fresh (mark_stale-Kept k active now db es l)
]

pub reconcile-Kept :
    (k : Checks) (active : List (List ℕ)) (clock : String → ℤ) (db : Db) (jobs : List Job)
    → Linked k db.jobs
    → Kept k db (reconcile active clock db jobs)
unfolding reconcile clean_up
reconcile-Kept k active clock db [] l = record { linked = l; same = λ i. refl }
reconcile-Kept k active clock db (j ∷ js) l =
    let first =
      mark_stale-Kept k active (clock j.name) db
        (running (list_executions (list_prefix j.name) db.executions)) l in
    let rest =
      reconcile-Kept k active clock (clean_up active (clock j.name) db j.name) js first.linked in
    record { linked = rest.linked; same = λ i. rest.same i ∙ first.same i }
