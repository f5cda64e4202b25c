-- ===== src/Server/Runs.antt =====
-- `ExecutionDone` of `dkron/dkron/grpc.go` on the leader: the result of an execution is stored, and then
-- the execution is tried again, or the dependent jobs are run and a job that is ephemeral is deleted.
-- What processors make of an execution, and whether its group is read and the notifications are sent,
-- are arguments; the wait before a retry and the scheduler, which `Leader` has, are left out.
pub mod Results
pub mod Retries
use phan_tan_dkron_giuaky.Common.{
  ℕ, zero, suc, ◌+◌, ◌%◌, ◌≡◌, Bool, true, false, not, ◌&&◌, Option, some, none, List, [], ◌∷◌,
  String, ℤ, ◌==◌, string_eq, get, ltb, if◌then◌else◌, ◌>>=◌,
}
use phan_tan_dkron_giuaky.Server.Job.{Job, Error, not_found}
use phan_tan_dkron_giuaky.Server.Cron.{Checks}
use phan_tan_dkron_giuaky.Server.Store.{Jobs}
use phan_tan_dkron_giuaky.Server.History.{delete_job_in}
use phan_tan_dkron_giuaky.Server.Executions.{Execution, Db, set_execution_done, stored_execution}

-- How `ExecutionDone` ends: with the execution to run again, or with the jobs that it ran
pub data End : Type 0 where
  failed : List String → Error → End
  unnotified : End
  retry : Execution → End
  saved deleted : List String → End

-- The execution that is sent to its node again
unfoldable pub retry_of : End → Option Execution
retry_of (retry e) = some e
retry_of unnotified = none
retry_of (failed ran e) = none
retry_of (saved ran) = none
retry_of (deleted ran) = none

-- The execution for the next attempt, if there is to be one
unfoldable pub next_attempt : Job → Execution → Option Execution
next_attempt j e =
    if not e.success && ltb e.attempt (j.retries + 1)
    then some (record e { attempt = e.attempt + 1; output = "" })
    else none

-- The loop over the dependent jobs: those that it ran, and whether it came to the end
unfoldable pub run_dependents : Jobs → List String → List String × Bool
run_dependents m [] = ([], true)
run_dependents m (d ∷ ds) = elim (get m d) [
  | none ↦ ([], false)
  | some j ↦ let rest = run_dependents m ds in (d ∷ rest.0, rest.1)
]

unfoldable pub after_deletion : List String → Option Error → End
after_deletion ran none = deleted ran
after_deletion ran (some e) = failed ran e

module _ (k : Checks) (process : Job → Execution → Execution) where
  -- What follows the retry: the notifications, the dependent jobs, and the end of an ephemeral job
  unfoldable pub finish : ℤ → ℕ → Bool → Db → Job → Option (Db × End)
  unfolding run_dependents after_deletion
  finish now fuel notified db j =
      if not notified
      then some (db, unnotified)
      else let ran =
          if j.status == "success" then run_dependents db.jobs j.dependent_jobs else ([], true) in
        if not ran.1
        then some (db, failed ran.0 not_found)
        else if j.ephemeral && j.status == "success"
        then (delete_job_in k now fuel db j.name >>= λ r. some (r.0, after_deletion ran.0 r.1))
        else some (db, saved ran.0)

  -- `ExecutionDone`
  unfoldable pub execution_done : ℤ → ℕ → Bool → Db → Execution → Option (Db × End)
  unfolding next_attempt finish
  execution_done now fuel notified db e = elim (get db.jobs e.job_name) [
    | none ↦ some (db, failed [] not_found)
    | some j ↦
        let result = process j e in
        let db' = (set_execution_done db (stored_execution result)).0 in
        elim (get db'.jobs j.name) [
          | none ↦ some (db', failed [] not_found)
          | some j' ↦ elim (next_attempt j' (stored_execution result)) [
            | some e' ↦ some (db', retry e')
            | none ↦ finish now fuel notified db' j'
          ]
        ]
  ]

  -- The executions of a job on its node, the first and each that `ExecutionDone` asks for: how often
  -- the node runs it. `run` is what the node makes of an execution that reaches it in a message.
  unfoldable pub count_runs : ℤ → ℕ → (Execution → Execution) → ℕ → Db → Execution → Option ℕ
  unfolding execution_done retry_of
  count_runs now fuel run zero db e = none
  count_runs now fuel run (suc rounds) db e =
      execution_done now fuel true db (run (stored_execution e)) >>= λ r. elim (retry_of r.1) [
        | none ↦ some 1
        | some e' ↦ count_runs now fuel run rounds r.0 e' >>= λ n. some (suc n)
      ]
