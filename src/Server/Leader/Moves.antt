-- ===== src/Server/Leader/Moves.antt =====
-- What can happen to the jobs and the scheduler of one server: calls of the API on the leader, the
-- start of a job, what the Raft log brings from another leader, and the changes of leadership in
-- `dkron/dkron/leader.go`.
use phan_tan_dkron_giuaky.Common.{
  ℕ, suc, ◌≡◌, Bool, true, false, Option, some, none, List, [], String, ℤ, string_eq, has,
}
use phan_tan_dkron_giuaky.Server.Job.{Job, Error, validate}
use phan_tan_dkron_giuaky.Server.Cron.{Checks}
use phan_tan_dkron_giuaky.Server.Store.{set_job, delete_job, Jobs}
use phan_tan_dkron_giuaky.Server.Store.Links.{dependent}
use phan_tan_dkron_giuaky.Server.Executions.{Execution, Db, set_execution_done, delete_executions}
use phan_tan_dkron_giuaky.Server.Scheduler.{CronEngine, Entry, Fault}
use phan_tan_dkron_giuaky.Server.Leader.{
  get_jobs, Leader, grpc_set_job, create_or_update, toggle, delete, run_stores, establish, revoke,
}
use mathlib.Core.List.{Permᴰ}

-- The job comes with no dependent jobs but those of the list in the store.
abbrev pub ListsOwn : Jobs → Job → Type 0
ListsOwn m j = (x : String) → has j.dependent_jobs x ≡ true → dependent m j.name x ≡ true

module _ {k : Checks} (c : CronEngine k) where
  -- A call that is over, with whatever answer; `now` is its time. `restoreHandler` validates the
  -- jobs of its file and then sets one after the other. A server takes the jobs that another
  -- leader saves or deletes only while its own scheduler is stopped. The store lists the jobs in
  -- any order. Snapshots are left out.
  pub data Move (l l' : Leader c) : Type 0 where
    saved :
        (now : ℤ) (fuel : ℕ) (paused : Bool) (j : Job) (code : ℕ)
        → ListsOwn l.jobs j
        → create_or_update c now (suc (suc fuel)) paused l j ≡ some (l', code)
        → Move l l'
    restored :
        (now : ℤ) (fuel : ℕ) (j : Job) (f : Option Fault)
        → validate k j ≡ none
        → ListsOwn l.jobs j
        → grpc_set_job c now (suc (suc fuel)) l j ≡ some (l', f)
        → Move l l'
    toggled :
        (now : ℤ) (fuel : ℕ) (name : String) (code : ℕ)
        → toggle c now (suc (suc fuel)) l name ≡ some (l', code)
        → Move l l'
    deleted :
        (now : ℤ) (fuel : ℕ) (name : String) (code : ℕ)
        → delete c now (suc fuel) l name ≡ some (l', code)
        → Move l l'
    begun :
        (now : ℤ) (fuel : ℕ) (name : String) (next_of_entry : Entry → ℤ) (f : Option Fault)
        → run_stores c now (suc (suc fuel)) l name next_of_entry ≡ some (l', f)
        → Move l l'
    done :
        (db : Db) (e : Execution)
        → db.jobs ≡ l.jobs
        → record l { jobs = (set_execution_done db e).0.jobs } ≡ l'
        → Move l l'
    cleared :
        (db : Db) (name : String)
        → db.jobs ≡ l.jobs
        → record l { jobs = (delete_executions db name).0.jobs } ≡ l'
        → Move l l'
    followed_save :
        (now : ℤ) (fuel : ℕ) (j : Job) (m : Jobs) (e : Option Error)
        → ListsOwn l.jobs j
        → l.sched.started ≡ false
        → set_job k now (suc (suc fuel)) true l.jobs j ≡ some (m, e)
        → record l { jobs = m } ≡ l'
        → Move l l'
    followed_delete :
        (now : ℤ) (fuel : ℕ) (name : String) (m : Jobs) (e : Option Error)
        → l.sched.started ≡ false
        → delete_job k now (suc fuel) l.jobs name ≡ some (m, e)
        → record l { jobs = m } ≡ l'
        → Move l l'
    established :
        (jobs : List Job) (active : Option (List (List ℕ))) (clock : String → ℤ) (db : Db)
        → db.jobs ≡ l.jobs
        → Permᴰ jobs (get_jobs l.jobs)
        → (establish c l jobs active clock db).0 ≡ l'
        → Move l l'
    revoked : revoke c l ≡ l' → Move l l'

  -- A new server
  abbrev pub new_server : Leader c
  new_server = record { jobs = []; sched = record { cron = c.new; started = false } }

  pub data Reached : Leader c → Type 0 where
    new : Reached new_server
    next : {l l' : Leader c} → Reached l → Move l l' → Reached l'
