-- ===== src/Server/Leader.antt =====
-- What a change of a job through the API sets in motion: the handlers of `dkron/dkron/api.go`,
-- `applySetJob` of `dkron/dkron/agent.go`, `SetJob` and `DeleteJob` of `dkron/dkron/grpc.go` on the
-- leader, how leadership starts and stops the scheduler, in `dkron/dkron/leader.go`, and the first
-- part of `Run` of `dkron/dkron/run.go`, up to the choice of the nodes. The call reaches the leader,
-- and the Raft log takes every command. `runoncreate` is left out.
pub mod Moves
pub mod Ready
pub mod InStep
pub mod Calls
mod Starts
mod Untouched
pub mod Reach
use phan_tan_dkron_giuaky.Common.{
  ℕ, ◌≡◌, Bool, true, false, not, Option, some, none, List, [], ◌∷◌, String, ℤ, ◌==◌, string_eq,
  get, if◌then◌else◌, ◌>>=◌, eqb,
}
use phan_tan_dkron_giuaky.Diagram.Defs.{truthy}
use phan_tan_dkron_giuaky.Server.Job.{Job, Error, parent_not_found, same_parent, validate, stored}
use phan_tan_dkron_giuaky.Server.Cron.{Checks}
use phan_tan_dkron_giuaky.Server.Store.{Jobs, Outcome, set_job, delete_job}
use phan_tan_dkron_giuaky.Server.Executions.{Db}
use phan_tan_dkron_giuaky.Server.Executions.Orphans.{reconcile}
use phan_tan_dkron_giuaky.Server.Scheduler.{
  CronEngine, Entry, Scheduler, Fault, of_store, no_entry, get_entry_job, add_job, remove_job,
  start, stop,
}

-- `GetJobs` with no options, less the order
unfoldable pub get_jobs : Jobs → List Job
get_jobs [] = []
get_jobs ((name, j) ∷ m) = j ∷ get_jobs m

-- Which answer of the store `applySetJob` takes for an error
unfoldable pub passed_on : Option Error → Option Error
passed_on none = none
passed_on (some parent_not_found) = some parent_not_found
passed_on (some same_parent) = some parent_not_found
passed_on (some e) = none

-- The status codes of the answers
abbrev pub status_ok : ℕ
status_ok = 200

abbrev pub created : ℕ
created = 201

abbrev pub bad_request : ℕ
bad_request = 400

abbrev pub not_found : ℕ
not_found = 404

abbrev pub unprocessable : ℕ
unprocessable = 422

abbrev pub internal_error : ℕ
internal_error = 500

abbrev pub unavailable : ℕ
unavailable = 503

-- The code for an error of `SetJob` on the way from `jobCreateOrUpdateHandler`
unfoldable pub code_of : Fault → ℕ
code_of (of_store parent_not_found) = not_found
code_of f = internal_error

module _ {k : Checks} (c : CronEngine k) where
  -- The jobs of the store and the scheduler of one server
  pub record Leader : Type 0 where
    pub jobs : Jobs
    pub sched : Scheduler c

  -- Calls give the server afterwards and an error, and `none` where the fuel of the store's `SetJob`
  -- runs out.
  abbrev pub Called : Type 0
  Called = Option (Leader × Option Fault)

  module _ (now : ℤ) (fuel : ℕ) where
    -- `applySetJob`
    unfoldable pub apply_set_job : Jobs → Job → Outcome
    unfolding passed_on
    apply_set_job m j = do r ← set_job k now fuel true m j; some (r.0, passed_on r.1)

    -- `SetJob` of the leader: what is stored is handed to the scheduler. On its way the job goes through
    -- the same messages as into the store.
    unfoldable pub grpc_set_job : Leader → Job → Called
    unfolding apply_set_job
    grpc_set_job l j = do
      r ← apply_set_job l.jobs (stored j)
      elim r.1 [
        | some e ↦ some (record l { jobs = r.0 }, some (of_store e))
        | none ↦
            let added = add_job c l.sched.cron (stored j) in
            some (record l { jobs = r.0; sched = record l.sched { cron = added.0 } }, added.1)
      ]

    -- `DeleteJob` of the leader. The job that is deleted comes back from the store.
    unfoldable pub grpc_delete_job : Leader → String → Called
    grpc_delete_job l name = do
      r ← delete_job k now fuel l.jobs name
      elim r.1 [
        | some e ↦ some (record l { jobs = r.0 }, some (of_store e))
        | none ↦ elim (get l.jobs name) [
          | none ↦ some (record l { jobs = r.0 }, none)
          | some j ↦ some (
            record l {
              jobs = r.0;
              sched = record l.sched { cron = remove_job c l.sched.cron j.name };
            },
            none,
          )
        ]
      ]

    -- How `Run` of the agent begins: a job without a parent is stored with the next time of its entry.
    unfoldable pub run_stores : Leader → String → (Entry → ℤ) → Called
    unfolding apply_set_job
    run_stores l name next_of_entry = elim (get l.jobs name) [
      | none ↦ some (l, some (of_store Error.not_found))
      | some j ↦
          if truthy j.parent_job
          then some (l, none)
          else elim (get_entry_job (c.entries l.sched.cron) name) [
            | none ↦ some (l, some no_entry)
            | some x ↦ do
              r ← apply_set_job l.jobs (stored (record j { next = next_of_entry x }))
              some (record l { jobs = r.0 }, elim r.1 [ none ↦ none | some e ↦ some (of_store e) ])
          ]
    ]

    -- `jobCreateOrUpdateHandler`, `jobToggleHandler` and `jobDeleteHandler`, with the code that they
    -- answer
    unfoldable pub create_or_update : Bool → Leader → Job → Option (Leader × ℕ)
    unfolding grpc_set_job code_of
    create_or_update paused l j = if paused then some (l, unavailable) else elim (validate k j) [
      | some e ↦ some (l, bad_request)
      | none ↦ do r ← grpc_set_job l j; some (r.0, elim r.1 [ none ↦ created | some f ↦ code_of f ])
    ]

    unfoldable pub toggle : Leader → String → Option (Leader × ℕ)
    unfolding grpc_set_job
    toggle l name = elim (get l.jobs name) [
      | none ↦ some (l, not_found)
      | some j ↦ do
        r ← grpc_set_job l (record j { disabled = not j.disabled })
        some (r.0, elim r.1 [ none ↦ status_ok | some f ↦ unprocessable ])
    ]

    unfoldable pub delete : Leader → String → Option (Leader × ℕ)
    unfolding grpc_delete_job
    delete l name = do
      r ← grpc_delete_job l name
      some (r.0, elim r.1 [ none ↦ status_ok | some f ↦ not_found ])

  -- `establishLeadership`, with the jobs as the store lists them: `active` are the keys of the executions
  -- that the servers say run, unless one of them does not answer, and the store is that of the leader.
  unfoldable pub establish :
      Leader → List Job → Option (List (List ℕ)) → (String → ℤ) → Db → Leader × Option Fault
  unfolding reconcile
  establish l jobs active clock db =
      let r = start c l.sched jobs in
      (
        record l {
          jobs = elim active [ none ↦ l.jobs | some keys ↦ (reconcile keys clock db jobs).jobs ];
          sched = r.0;
        },
        r.1,
      )

  -- `revokeLeadership`

  unfoldable pub revoke : Leader → Leader
  revoke l = record l { sched = stop c l.sched }
