-- ===== src/Server/Runs/Retries.antt =====
-- The retries of `ExecutionDone` in `dkron/dkron/grpc.go` come to an end.
use phan_tan_dkron_giuaky.Common.{
  ℕ, zero, suc, ◌+◌, ◌≡◌, ◌<◌, refl, ap, ◌∙◌, true, false, some, none, ℤ, string_eq, get, ◌>>=◌,
  arith,
}
use phan_tan_dkron_giuaky.Server.Job.{Job}
use phan_tan_dkron_giuaky.Server.Cron.{Checks}
use phan_tan_dkron_giuaky.Server.Store.Links.{Linked}
use phan_tan_dkron_giuaky.Server.Executions.{Execution, Db, stored_execution}
use phan_tan_dkron_giuaky.Server.Runs.{End, retry, retry_of, execution_done, count_runs}
use phan_tan_dkron_giuaky.Server.Runs.Results.{Keeps, again, at_last}

-- Every run fails, and is reported as what it is.
pub record Fails (run : Execution → Execution) : Type 0 where
  pub unsuccessful : (e : Execution) → (run e).success ≡ false
  pub same_job : (e : Execution) → (run e).job_name ≡ e.job_name
  pub same_attempt : (e : Execution) → (run e).attempt ≡ e.attempt

module _ (k : Checks) (process : Job → Execution → Execution) (keeps : Keeps process)
    (run : Execution → Execution) (fails : Fails run) (now : ℤ) (fuel : ℕ) where
  count_runs-over :
      (rounds : ℕ) (db : Db) (e : Execution) (r : Db × End)
      → execution_done k process now (suc fuel) true db (run (stored_execution e)) ≡ some r
      → retry_of r.1 ≡ none
      → count_runs k process now (suc fuel) run (suc rounds) db e ≡ some 1
  unfolding count_runs
  count_runs-over rounds db e r ended over = rw (count_runs, ended) (rw (◌>>=◌, over) refl)

  count_runs-more :
      (rounds : ℕ) (db : Db) (e : Execution) (db' : Db) (e' : Execution) (n : ℕ)
      → execution_done k process now (suc fuel) true db (run (stored_execution e))
        ≡ some (db', retry e')
      → count_runs k process now (suc fuel) run rounds db' e' ≡ some n
      → count_runs k process now (suc fuel) run (suc rounds) db e ≡ some (suc n)
  unfolding count_runs retry_of
  count_runs-more rounds db e db' e' n ended rest = rw (count_runs, ended) (rw rest refl)

  count_runs_from :
      (rounds left : ℕ) (db : Db) (e : Execution) (j : Job)
      → Linked k db.jobs
      → get db.jobs e.job_name ≡ some j
      → e.attempt + left ≡ j.retries + 1
      → j.retries + 1 < 4294967296
      → left < rounds
      → count_runs k process now (suc fuel) run rounds db e ≡ some (suc left)
  count_runs_from zero left db e j l found sum small enough = absurd (omega (arith, enough))
  count_runs_from (suc rounds) zero db e j l found sum small enough =
      let result = run (stored_execution e) in
      let (r, ended, over) =
        at_last k process keeps now fuel db result j l
          (ap (get db.jobs) (fails.same_job (stored_execution e)) ∙ found)
          (omega (arith, fails.same_attempt (stored_execution e), sum, small)) small in
      count_runs-over rounds db e r ended over
  count_runs_from (suc rounds) (suc left) db e j l found sum small enough =
      let result = run (stored_execution e) in
      let attempt : result.attempt ≡ e.attempt =
        omega (arith, fails.same_attempt (stored_execution e), sum, small) in
      let (db', e', j', ended, l', found', kept, more) =
        again k process keeps now fuel db result j l
          (ap (get db.jobs) (fails.same_job (stored_execution e)) ∙ found)
          (fails.unsuccessful (stored_execution e)) (omega (arith, attempt, sum)) small in
      let rest =
        count_runs_from rounds left db' e' j' l' found' (omega (arith, more, attempt, sum, kept))
          (omega (arith, kept, small)) (omega (arith, enough)) in
      count_runs-more rounds db e db' e' (suc left) ended rest

  -- A job whose runs all fail, on one node, is run once and then as often as its retries say, and no
  -- more: with that many rounds or more the count is reached. The retries fit in 32 bits with room
  -- for one more, the processors change no more than the output, the notifications are sent, and
  -- parents and lists of dependent jobs agree in the store.
  pub count_runs_lem :
      (rounds : ℕ) (db : Db) (e : Execution) (j : Job)
      → Linked k db.jobs
      → get db.jobs e.job_name ≡ some j
      → e.attempt ≡ 1
      → j.retries + 1 < 4294967296
      → j.retries < rounds
      → count_runs k process now (suc fuel) run rounds db e ≡ some (suc j.retries)
  count_runs_lem rounds db e j l found first small enough =
      count_runs_from rounds j.retries db e j l found (omega (arith, first)) small enough
