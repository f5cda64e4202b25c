-- ===== src/Server/Executions.antt =====
-- `dkron/dkron/execution.go` and `dkron/dkron/store.go`: the executions of the store, the counters and
-- the status of their jobs, and the numbers of each day. Times are nanoseconds since 1970, in 64 bits.
pub mod Done
mod Sorted
pub mod Limit
pub mod Orphans
use phan_tan_dkron_giuaky.Common.{
  ℕ, zero, suc, ◌+◌, ◌-◌, ◌/◌, ◌%◌, ◌≡◌, refl, Bool, true, false, not, ◌&&◌, ◌||◌, Option, some,
  none, List, [], ◌∷◌, ◌++◌, String, ℤ, pos, negsuc, ◌+ℤ◌, ◌==◌, string_eq, nat_eq, int_eq,
  codes_eq, get, put, erase, if◌then◌else◌, leb_ℤ, ltb, eqb, codes_of, length, take, arith,
}
use phan_tan_dkron_giuaky.Server.Schedule.{has_prefix}
use phan_tan_dkron_giuaky.Server.Job.{Job, Error, execution_done_for_deleted_job, not_found, int_32}
use phan_tan_dkron_giuaky.Server.Store.{Jobs, Result, ok, err}

pub record Execution : Type 0 where
  pub job_name : String
  pub started_at : ℤ
  pub finished_at : ℤ
  pub success : Bool
  pub output : String
  pub node_name : String
  pub group : ℤ
  pub attempt : ℕ

-- An execution as it comes back from the store: `ToProto`, and then `NewExecutionFromProto`.
abbrev pub stored_execution : Execution → Execution
stored_execution e = record e { attempt = e.attempt % 4294967296 }

-- The digits of a number, `%d`: 20 are enough for 64 bits.
unfoldable digits : ℕ → ℕ → List ℕ
digits zero n = []
digits (suc fuel) n =
    if ltb n 10 then (b'0' + n) ∷ [] else digits fuel (n / 10) ++ (b'0' + n % 10) ∷ []

unfoldable pub decimal : ℤ → List ℕ
unfolding digits
decimal (pos n) = digits 20 n
decimal (negsuc n) = b'-' ∷ digits 20 (n + 1)

-- The prefix of the keys of a job's executions, without the colon that ends it, and with it.
unfoldable pub job_prefix : String → List ℕ
job_prefix name = codes_of "executions" ++ b':' ∷ codes_of name

unfoldable pub list_prefix : String → List ℕ
unfolding job_prefix
list_prefix name = job_prefix name ++ b':' ∷ []

-- The key that `Key` ends: the start and the node.
unfoldable pub key_of : Execution → List ℕ
unfolding list_prefix decimal
key_of e = list_prefix e.job_name ++ decimal e.started_at ++ b'-' ∷ codes_of e.node_name

abbrev pub Executions : Type 0
Executions = List (List ℕ × Execution)

-- `trimDirectoryKey`
unfoldable trim_directory_key : List ℕ → List ℕ
trim_directory_key [] = []
trim_directory_key (c ∷ []) = if eqb c b':' then [] else c ∷ []
trim_directory_key (c ∷ d ∷ s) = c ∷ trim_directory_key (d ∷ s)

-- Whether a listing by the prefix has the key
unfoldable pub is_listed : List ℕ → List ℕ → Bool
unfolding has_prefix trim_directory_key
is_listed prefix key = has_prefix prefix key && not (trim_directory_key key == prefix)

-- `listTxFunc`: the executions whose key has the prefix, in the order of the store.
unfoldable pub list_executions : List ℕ → Executions → List Execution
unfolding is_listed
list_executions prefix [] = []
list_executions prefix ((key, e) ∷ m) =
    let rest = list_executions prefix m in if is_listed prefix key then e ∷ rest else rest

-- `deleteExecutionsTxFunc`
unfoldable pub delete_prefix : List ℕ → Executions → Executions
unfolding has_prefix
delete_prefix prefix [] = []
delete_prefix prefix ((key, e) ∷ m) =
    let rest = delete_prefix prefix m in if has_prefix prefix key then rest else (key, e) ∷ rest

-- The executions of one group that succeeded, or that did not: one that still runs did not.
unfoldable pub count_group : Bool → ℤ → List Execution → ℕ
count_group s group [] = 0
count_group s group (e ∷ es) =
    let rest = count_group s group es in
    if e.group == group && (if s then e.success else not e.success) then suc rest else rest

-- `computeStatus`
unfoldable pub status_of : ℕ → ℕ → String
status_of success failed =
    if eqb failed 0 then "success" else if eqb success 0 then "failed" else "partially_failed"

unfoldable pub compute_status : String → ℤ → Executions → String
unfolding status_of count_group list_executions list_prefix
compute_status name group m =
    let es = list_executions (list_prefix name) m in
    status_of (count_group true group es) (count_group false group es)

-- A day since 1970, `formatStatDate`; and its `ExecutionStat`, whose numbers no run makes overflow.
unfoldable pub day_of : ℤ → ℤ
day_of (pos n) = pos (n / 86400000000000)
day_of (negsuc n) = negsuc (n / 86400000000000)

pub record Stat : Type 0 where
  pub success_count : ℕ
  pub failed_count : ℕ

abbrev pub Stats : Type 0
Stats = List (ℤ × Stat)

abbrev pub no_executions : Stat
no_executions = record { success_count = 0; failed_count = 0 }

unfoldable pub stat_at : Stats → ℤ → Stat
stat_at m day = elim (get m day) [ none ↦ no_executions | some s ↦ s ]

-- `incrementStatTxFunc`, on the day and in the store
unfoldable pub bump : Bool → Stat → Stat
bump success s =
    if success
    then record s { success_count = s.success_count + 1 }
    else record s { failed_count = s.failed_count + 1 }

unfoldable pub increment_stat : ℤ → Bool → Stats → Stats
unfolding day_of stat_at bump
increment_stat date success m = put m (day_of date) (bump success (stat_at m (day_of date)))

pub record Db : Type 0 where
  pub jobs : Jobs
  pub executions : Executions
  pub stats : Stats

-- Whether the job's last success, or its last error, is at this time.
unfoldable pub is_last : Option ℤ → ℤ → Bool
is_last none t = false
is_last (some u) t = u == t

-- `shouldCount`, against the execution with the same key
unfoldable pub should_count : Option Execution → Job → Execution → Bool
unfolding is_last
should_count none j e = true
should_count (some previous) j e =
    if previous.finished_at == e.finished_at
      && (if previous.success then e.success else not e.success)
    then not (is_last (if e.success then j.last_success else j.last_error) e.finished_at)
    else true

-- `previousFinishedAt.After(finishedAt)`
unfoldable pub is_later : Option Execution → Execution → Bool
is_later none e = false
is_later (some previous) e = not (leb_ℤ previous.finished_at e.finished_at)

-- The job's new counters; they have 32 bits.
unfoldable pub counted : Job → Execution → Job
unfolding int_32
counted j e =
    if e.success
    then record j {
      last_success = some e.finished_at;
      success_count = int_32 (j.success_count +ℤ pos 1);
    }
    else record j { last_error = some e.finished_at; error_count = int_32 (j.error_count +ℤ pos 1) }

-- `setExecutionTx`: an execution with a later end stays.
unfoldable pub set_execution_tx : Execution → Executions → Executions
unfolding key_of is_later
set_execution_tx e m =
    if is_later (get m (key_of e)) e then m else put m (key_of e) (stored_execution e)

unfoldable pub delete_all : List Execution → Executions → Executions
unfolding key_of
delete_all [] m = m
delete_all (e ∷ es) m = delete_all es (erase m (key_of e))

-- Of the listed executions over `MaxExecutions` the oldest are deleted.
unfoldable pub keep_newest : (List Execution → List Execution) → List ℕ → Executions → Executions
unfolding delete_all list_executions
keep_newest sort prefix m =
    let es = list_executions prefix m in
    if ltb 100 (length es) then delete_all (take (length es - 100) (sort es)) m else m

-- `SetExecution`, with the sort by the time of the start
unfoldable pub set_execution :
    (List Execution → List Execution) → Executions → Execution → Executions
set_execution sort m e = keep_newest sort (list_prefix e.job_name) (set_execution_tx e m)

-- The three ends of the transaction: a later result is there, the result was counted, or it is now.
unfoldable pub save_execution : Db → Execution → Db
unfolding key_of
save_execution db e = record db { executions = put db.executions (key_of e) (stored_execution e) }

unfoldable pub count_execution : Db → Job → Execution → Db
unfolding save_execution counted compute_status increment_stat
count_execution db j e =
    let executions = (save_execution db e).executions in
    record {
      jobs =
          put db.jobs j.name
            (record (counted j e) { status = compute_status j.name e.group executions });
      executions = executions;
      stats = increment_stat e.finished_at e.success db.stats;
    }

-- `SetExecutionDone`
unfoldable pub set_execution_done : Db → Execution → Db × Result Bool
unfolding key_of should_count is_later save_execution count_execution
set_execution_done db e = elim (get db.jobs e.job_name) [
  | none ↦ (db, err execution_done_for_deleted_job)
  | some j ↦
      if is_later (get db.executions (key_of e)) e
      then (db, ok false)
      else if not (should_count (get db.executions (key_of e)) j e)
      then (save_execution db e, ok false)
      else (count_execution db j e, ok true)
]

-- `DeleteExecutions`
unfoldable pub delete_executions : Db → String → Db × Option Error
unfolding delete_prefix job_prefix
delete_executions db name = elim (get db.jobs name) [
  | none ↦ (db, some not_found)
  | some j ↦ (
    record db {
      jobs = put db.jobs j.name (record j {
        success_count = pos 0;
        error_count = pos 0;
        last_success = none;
        last_error = none;
      });
      executions = delete_prefix (job_prefix name) db.executions;
    },
    none,
  )
]
