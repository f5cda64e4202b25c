-- ===== src/Server/Executions/Orphans.antt =====
-- `cleanupStaleRunningExecutions` of `dkron/dkron/agent.go` and `reconcileRunningExecutionOrphans` of
-- `dkron/dkron/leader.go`: the executions that the store takes for running and no node runs. The Raft
-- log takes every command.
use Prim.Native.String.{◌++◌ as glue}
use phan_tan_dkron_giuaky.Common.{
  ℕ, Bool, false, not, ◌&&◌, List, [], ◌∷◌, ◌++◌, String, ℤ, pos, ◌-ℤ◌, codes_eq, has,
  if◌then◌else◌, leb_ℤ, codes_of,
}
use phan_tan_dkron_giuaky.Server.Job.{Job}
use phan_tan_dkron_giuaky.Server.Analytics.{is_zero}
use phan_tan_dkron_giuaky.Server.Executions.{
  Execution, Db, decimal, list_prefix, list_executions, set_execution_done,
}

-- `GetRunningExecutions`, from the list of the job's executions
unfoldable pub running : List Execution → List Execution
running [] = []
running (e ∷ es) =
    let rest = running es in
    if not (is_zero e.started_at) && is_zero e.finished_at then e ∷ rest else rest

-- `Key`, without the job
unfoldable pub short_key : Execution → List ℕ
short_key e = decimal e.started_at ++ b'-' ∷ codes_of e.node_name

-- `DefaultStaleExecutionThreshold`
abbrev pub stale_threshold : ℤ
stale_threshold = pos 14400000000000

-- No node runs it, and it started too long ago.
unfoldable pub is_stale : List (List ℕ) → ℤ → Execution → Bool
unfolding short_key
is_stale active now e =
    not (has active (short_key e)) && not (leb_ℤ (now -ℤ e.started_at) stale_threshold)

unfoldable pub marked : ℤ → Execution → Execution
marked now e = record e {
  finished_at = now;
  success = false;
  output = glue e.output "\nExecution marked as failed: detected as stale (not active on any node)";
}

-- The loop of `cleanupStaleRunningExecutions`, with `markExecutionDone`
unfoldable pub mark_stale : List (List ℕ) → ℤ → Db → List Execution → Db
unfolding is_stale marked
mark_stale active now db [] = db
mark_stale active now db (e ∷ es) =
    mark_stale active now
      (if is_stale active now e then (set_execution_done db (marked now e)).0 else db) es

unfoldable pub clean_up : List (List ℕ) → ℤ → Db → String → Db
unfolding mark_stale running
clean_up active now db name =
    mark_stale active now db (running (list_executions (list_prefix name) db.executions))

-- `clock` is the time at which the executions of a job are looked at.
unfoldable pub reconcile : List (List ℕ) → (String → ℤ) → Db → List Job → Db
unfolding clean_up
reconcile active clock db [] = db
reconcile active clock db (j ∷ js) =
    reconcile active clock (clean_up active (clock j.name) db j.name) js
