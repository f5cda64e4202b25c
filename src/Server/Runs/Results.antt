-- ===== src/Server/Runs/Results.antt =====
-- One result that `ExecutionDone` of `dkron/dkron/grpc.go` gets: whether the execution is run again.
use phan_tan_dkron_giuaky.Common.{
  ℕ, suc, ◌+◌, ◌≡◌, ◌≤◌, ◌<◌, refl, sym, ap, ◌∙◌, Bool, true, false, ◌&&◌, inl, inr, Option, some,
  none, List, [], String, ℤ, ◌==◌, ==_iff, string_eq, get, get-put, put, if◌then◌else◌, Bool-cases,
  Option-cases, arith,
}
use phan_tan_dkron_giuaky.Server.Job.{Job, Error, not_found}
use phan_tan_dkron_giuaky.Server.Cron.{Checks}
use phan_tan_dkron_giuaky.Server.Store.{Jobs}
use phan_tan_dkron_giuaky.Server.Store.Links.{Linked}
use phan_tan_dkron_giuaky.Server.Store.Deletes.{delete_job-Linked}
use phan_tan_dkron_giuaky.Server.History.{delete_job_in, set_execution_done-Linked}
use phan_tan_dkron_giuaky.Server.Executions.{
  Execution, Db, set_execution_done, stored_execution, count_execution, counted, compute_status,
  save_execution,
}
use phan_tan_dkron_giuaky.Server.Executions.Done.{done_cases}
use phan_tan_dkron_giuaky.Server.Runs.{
  End, retry, retry_of, saved, failed, unnotified, next_attempt, run_dependents, after_deletion,
  finish, execution_done,
}

retries-counted :
    (j : Job) (e : Execution) (s : String)
    → (record (counted j e) { status = s }).retries ≡ j.retries
unfolding counted
retries-counted j e s = elim (Bool-cases e.success) [
  | inl good ↦ rw good refl
  | inr bad ↦ rw bad refl
]

get-put_self : (m : Jobs) (n : String) (j : Job) → get (put m n j) n ≡ some j
get-put_self m n j = ground (arith, get-put m n n j, ==_iff n n)

get-count_execution :
    (db : Db) (j : Job) (e : Execution)
    → (j' : Job) × (get (count_execution db j e).jobs j.name ≡ some j') × (j'.retries ≡ j.retries)
unfolding count_execution
get-count_execution db j e =
    let status = compute_status j.name e.group (save_execution db e).executions in
    (
      record (counted j e) { status = status },
      get-put_self db.jobs j.name (record (counted j e) { status = status }),
      retries-counted j e status,
    )

-- The end of an execution leaves the number of retries of its job.
done-retries :
    (db : Db) (e : Execution) (j : Job)
    → get db.jobs e.job_name ≡ some j
    → j.name ≡ e.job_name
    → (j' : Job) × (get (set_execution_done db e).0.jobs j.name ≡ some j')
      × (j'.retries ≡ j.retries)
done-retries db e j found named = elim (done_cases db e) [
  | inl same ↦ (j, ap (λ m. get m j.name) same ∙ ap (get db.jobs) named ∙ found, refl)
  | inr (i, there, counts) ↦
      let own : i ≡ j = cc in
      let (j', at, kept) = get-count_execution db j e in
      (
        j',
        ap (λ (d : Db). get d.jobs j.name) (counts ∙ ap (λ a. count_execution db a e) own) ∙ at,
        kept,
      )
]

module _ (k : Checks) (process : Job → Execution → Execution) where
  delete_job_in_total :
      (now : ℤ) (fuel : ℕ) (db : Db) (n : String)
      → Linked k db.jobs
      → (r : Db × Option Error) × (delete_job_in k now (suc fuel) db n ≡ some r)
  unfolding delete_job_in
  delete_job_in_total now fuel db n l =
      let (m, ran, rest, parents, runs, kept) = delete_job-Linked k now fuel db.jobs n l in
      elim (Option-cases (delete_job_in k now (suc fuel) db n)) [
        | inl gone ↦ let no : true ≡ false = ground (arith, ran) in cc
        | inr found ↦ found
      ]

  after_deletion-retry :
      (ran : List String) (o : Option Error) → retry_of (after_deletion ran o) ≡ none
  unfolding retry_of after_deletion
  after_deletion-retry ran none = refl
  after_deletion-retry ran (some e) = refl

  finish_total :
      (now : ℤ) (fuel : ℕ) (notified : Bool) (db : Db) (j : Job)
      → Linked k db.jobs
      → (r : Db × End) × (finish k process now (suc fuel) notified db j ≡ some r)
        × (retry_of r.1 ≡ none)
  unfolding finish retry_of
  finish_total now fuel false db j l = ((db, unnotified), refl, refl)
  finish_total now fuel true db j l =
      let ran =
        if j.status == "success" then run_dependents db.jobs j.dependent_jobs else ([], true) in
      elim (Bool-cases ran.1) [
        | inl all ↦ elim (Bool-cases (j.ephemeral && j.status == "success")) [
          | inl ends ↦
              let (r, gone) = delete_job_in_total now fuel db j.name l in
              (
                (r.0, after_deletion ran.0 r.1),
                rw all (rw ends (rw gone refl)),
                after_deletion-retry ran.0 r.1,
              )
          | inr stays ↦ ((db, saved ran.0), rw all (rw stays refl), refl)
        ]
        | inr missing ↦ ((db, failed ran.0 not_found), rw missing refl, refl)
      ]

-- Processors change no more than the output.
pub record Keeps (process : Job → Execution → Execution) : Type 0 where
  pub success_kept : (j : Job) (e : Execution) → (process j e).success ≡ e.success
  pub job_kept : (j : Job) (e : Execution) → (process j e).job_name ≡ e.job_name
  pub attempt_kept : (j : Job) (e : Execution) → (process j e).attempt ≡ e.attempt

next_attempt-some :
    (j : Job) (e : Execution)
    → e.success ≡ false
    → e.attempt < j.retries + 1
    → next_attempt j e ≡ some (record e { attempt = e.attempt + 1; output = "" })
unfolding next_attempt
next_attempt-some j e fails early = rw fails (ground arith)

next_attempt-none : (j : Job) (e : Execution) → j.retries + 1 ≤ e.attempt → next_attempt j e ≡ none
unfolding next_attempt
next_attempt-none j e late = ground arith

module _ (k : Checks) (process : Job → Execution → Execution) (keeps : Keeps process) where
  -- The store and the job after the result of `e` was stored.
  after_done :
      (db : Db) (e : Execution) (j : Job)
      → Linked k db.jobs
      → get db.jobs e.job_name ≡ some j
      → (j' : Job) × (get (set_execution_done db (stored_execution (process j e))).0.jobs j.name
          ≡ some j')
        × (j'.retries ≡ j.retries)
        × (j.name ≡ e.job_name)
        × Linked k (set_execution_done db (stored_execution (process j e))).0.jobs
  after_done db e j l found =
      let named = l.sound.named e.job_name j found in
      let same = keeps.job_kept j e in
      let (j', at, kept) =
        done-retries db (stored_execution (process j e)) j (ap (get db.jobs) same ∙ found)
          (named ∙ sym same) in
      (j', at, kept, named, set_execution_done-Linked k db l (stored_execution (process j e)))

  module _ (now : ℤ) (fuel : ℕ) where
    stored_attempt :
        (e : Execution) (j : Job)
        → e.attempt < 4294967296
        → (stored_execution (process j e)).attempt ≡ e.attempt
    stored_attempt e j small = omega (arith, keeps.attempt_kept j e)

    done_again :
        (db : Db) (e e' : Execution) (j j' : Job)
        → get db.jobs e.job_name ≡ some j
        → get (set_execution_done db (stored_execution (process j e))).0.jobs j.name ≡ some j'
        → next_attempt j' (stored_execution (process j e)) ≡ some e'
        → execution_done k process now (suc fuel) true db e
          ≡ some ((set_execution_done db (stored_execution (process j e))).0, retry e')
    unfolding execution_done
    done_again db e e' j j' found at more = rw (execution_done, found) (rw at (rw more refl))

    pub again :
        (db : Db) (e : Execution) (j : Job)
        → Linked k db.jobs
        → get db.jobs e.job_name ≡ some j
        → e.success ≡ false
        → e.attempt < j.retries + 1
        → j.retries + 1 < 4294967296
        → (db' : Db) × (e' : Execution) × (j' : Job) × (execution_done k process now
              (suc fuel)
              true
              db
              e
            ≡ some (db', retry e'))
          × Linked k db'.jobs
          × (get db'.jobs e'.job_name ≡ some j')
          × (j'.retries ≡ j.retries)
          × (e'.attempt ≡ e.attempt + 1)
    again db e j l found fails early small =
        let (j', at, kept, named, l') = after_done db e j l found in
        let attempt = stored_attempt e j (omega (arith, early, small)) in
        let next =
          next_attempt-some j' (stored_execution (process j e)) (keeps.success_kept j e ∙ fails)
            (omega (arith, attempt, kept, early)) in
        (
          (set_execution_done db (stored_execution (process j e))).0,
          record (stored_execution (process j e)) {
            attempt = (stored_execution (process j e)).attempt + 1;
            output = "";
          },
          j',
          done_again db e _ j j' found at next,
          l',
          ap (get _) (keeps.job_kept j e ∙ sym named) ∙ at,
          kept,
          ap (λ n. n + 1) (stored_attempt e j (omega (arith, early, small))),
        )

    done_last :
        (db : Db) (e : Execution) (j j' : Job)
        → get db.jobs e.job_name ≡ some j
        → get (set_execution_done db (stored_execution (process j e))).0.jobs j.name ≡ some j'
        → next_attempt j' (stored_execution (process j e)) ≡ none
        → execution_done k process now (suc fuel) true db e
          ≡ finish k process now
              (suc fuel)
              true
              (set_execution_done db (stored_execution (process j e))).0
              j'
    unfolding execution_done
    done_last db e j j' found at over = rw (execution_done, found) (rw at (rw over refl))

    pub at_last :
        (db : Db) (e : Execution) (j : Job)
        → Linked k db.jobs
        → get db.jobs e.job_name ≡ some j
        → e.attempt ≡ j.retries + 1
        → j.retries + 1 < 4294967296
        → (r : Db × End) × (execution_done k process now (suc fuel) true db e ≡ some r)
          × (retry_of r.1 ≡ none)
    at_last db e j l found last small =
        let (j', at, kept, named, l') = after_done db e j l found in
        let (r, ended, over) =
          finish_total k process now fuel true
            (set_execution_done db (stored_execution (process j e))).0 j' l' in
        let none_left =
          next_attempt-none j' (stored_execution (process j e))
            (omega (arith, kept, last, stored_attempt e j (omega (arith, last, small)))) in
        (r, done_last db e j j' found at none_left ∙ ended, over)
