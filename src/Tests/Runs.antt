-- ===== src/Tests/Runs.antt =====
-- A job with two retries whose runs all fail.
use phan_tan_dkron_giuaky.Common.{
  ◌≡◌, refl, false, some, none, [], ◌∷◌, pos, ◌+ℤ◌, get, put, has, codes_of, string_eq, arith,
}
use phan_tan_dkron_giuaky.Server.Job.{Job, validate, get_next, stored}
use phan_tan_dkron_giuaky.Server.Schedule.{schedule_hash}
use phan_tan_dkron_giuaky.Server.Cron.{parse, next_of}
use phan_tan_dkron_giuaky.Server.Store.{
  set_job, relink, remove_from_parent, add_to_parent, get_parent,
}
use phan_tan_dkron_giuaky.Server.History.{
  History, saved, start, next, empty, set_job_in, History-Linked,
}
use phan_tan_dkron_giuaky.Server.Executions.{Execution, Db}
use phan_tan_dkron_giuaky.Server.Runs.{count_runs}
use phan_tan_dkron_giuaky.Server.Runs.Results.{Keeps}
use phan_tan_dkron_giuaky.Server.Runs.Retries.{Fails, count_runs_lem}
use phan_tan_dkron_giuaky.Tests.Server.{lenient, job, no_list}

abbrev retried : Job
retried = record (job "a" "") { retries = 2 }

abbrev retried_next : Job
retried_next = record retried { next = pos 3600000000000 }

abbrev stored_job : Db
stored_job = record empty { jobs = ("a", retried_next) ∷ [] }

saves_retried : set_job_in lenient (pos 0) 2 empty retried ≡ some (stored_job, none)
unfolding set_job_in set_job validate codes_of schedule_hash has get get_next parse next_of put
    stored ◌+ℤ◌ relink remove_from_parent add_to_parent get_parent
saves_retried = refl

history : History lenient stored_job
history = next start (saved (pos 0) 0 retried none (no_list [] "a" "") saves_retried)

abbrev first_attempt : Execution
first_attempt = record {
  job_name = "a";
  started_at = pos 0;
  finished_at = pos 1;
  success = false;
  output = "";
  node_name = "n1";
  group = pos 1;
  attempt = 1;
}

abbrev failing : Execution → Execution
failing e = record e { success = false; output = "no such file" }

failing-Fails : Fails failing
failing-Fails = record { unsuccessful = λ e. refl; same_job = λ e. refl; same_attempt = λ e. refl }

abbrev unprocessed : Job → Execution → Execution
unprocessed j e = e

unprocessed-Keeps : Keeps unprocessed
unprocessed-Keeps = record {
  success_kept = λ j e. refl;
  job_kept = λ j e. refl;
  attempt_kept = λ j e. refl;
}

found : get stored_job.jobs "a" ≡ some retried_next
unfolding get
found = refl

count_runs_lem_example :
    count_runs lenient unprocessed (pos 0) 1 failing 5 stored_job first_attempt ≡ some 3
count_runs_lem_example =
    count_runs_lem lenient unprocessed unprocessed-Keeps failing failing-Fails (pos 0) 0 5
      stored_job first_attempt retried_next (History-Linked lenient stored_job history) found refl
      (omega arith) (omega arith)
