-- ===== src/Tests/Server.antt =====
-- The server on two jobs, `b` below `a`.
use phan_tan_dkron_giuaky.Common.{
  ◌+◌, ◌≡◌, ◌≤◌, ◌↔◌, refl, true, false, not, ◌&&◌, none, some, List, [], ◌∷◌, String, ℤ, pos, ◌==◌,
  ==_iff, arith, ◌+ℤ◌, ◌-ℤ◌, leb, length, get, put, has, Distinct, keys, string_eq, int_eq,
  codes_eq, nat_eq, if◌then◌else◌, codes_of,
}
use phan_tan_dkron_giuaky.Diagram.Defs.{truthy}
use phan_tan_dkron_giuaky.Server.Job.{Job, validate, get_next, stored, after, dependents_exist}
use phan_tan_dkron_giuaky.Server.Cron.{Checks, parse, next_of}
use phan_tan_dkron_giuaky.Server.Store.{
  Jobs, set_job, delete_job, relink, remove_from_parent, add_to_parent, get_parent,
}
use phan_tan_dkron_giuaky.Server.Schedule.{schedule_hash}
use phan_tan_dkron_giuaky.Server.Store.Deletes.{removal, delete_job-Linked}
use phan_tan_dkron_giuaky.Server.Store.Links.{parent_at, Linked, dependent, scheduled, scheduled_at}
use phan_tan_dkron_giuaky.Server.Job.{is_none}
use phan_tan_dkron_giuaky.Server.Store.Tree.{refusal, set_job-Linked}
use phan_tan_dkron_giuaky.Server.History.{
  History, saved, start, next, empty, set_job_in, History-Linked,
}
use phan_tan_dkron_giuaky.Server.Executions.{Db, Execution}
use phan_tan_dkron_giuaky.Diagram.Relatives.Walk.{Walk, job_map, find_ancestors, find_descendants}
use phan_tan_dkron_giuaky.Diagram.Relatives.Correct.{depth_bound, new_walk}
use phan_tan_dkron_giuaky.Server.Diagrams.{sent, find_descendants_iff_find_ancestors}
use phan_tan_dkron_giuaky.Server.Executions.{set_execution_done, increment_stat, day_of}
use phan_tan_dkron_giuaky.Server.Executions.{
  Executions, key_of, list_executions, list_prefix, set_execution,
}
use phan_tan_dkron_giuaky.Server.Executions.Limit.{set_execution-limit}
use mathlib.Core.List.Permᴰ
use phan_tan_dkron_giuaky.Server.Executions.Done.{again, set_execution_done_twice}
use phan_tan_dkron_giuaky.Server.Stats.{
  get_execution_stats, days_shown, total, shows, counts_as, total-get_execution_stats,
}
use phan_tan_dkron_giuaky.Server.Pages.{atoi, jobs_page}

abbrev pub lenient : Checks
lenient = record {
  is_lower = λ c. leb b'a' c && leb c b'z';
  cron_parses = λ s. not (s == []);
  cron_next = λ s t. t +ℤ pos 3600000000000;
  time_of = λ s. none;
  location_exists = λ s. true;
  duration_parses = λ s. true;
  nanoseconds_of = λ s. pos 0;
  scaled = λ s m. none;
}

abbrev pub job : String → String → Job
job name parent = record {
  name = name;
  displayname = "";
  timezone = "";
  schedule = "@hourly";
  owner = "";
  owner_email = "";
  success_count = pos 0;
  error_count = pos 0;
  last_success = none;
  last_error = none;
  disabled = false;
  tags = [];
  metadata = [];
  retries = 0;
  dependent_jobs = [];
  parent_job = parent;
  processors = [];
  concurrency = "allow";
  executor = "shell";
  executor_config = [];
  status = "";
  next = pos 0;
  ephemeral = false;
  starts_at = none;
  expires_at = none;
}

abbrev an_hour : ℤ
an_hour = pos 3600000000000

abbrev kept : Job → Job
kept j = record j { next = an_hour }

abbrev with_a : Db
with_a = record empty { jobs = ("a", kept (job "a" "")) ∷ [] }

abbrev with_both : Db
with_both = record empty {
  jobs =
      ("a", record (kept (job "a" "")) { dependent_jobs = "b" ∷ [] })
      ∷ ("b", kept (job "b" "a"))
      ∷ [];
}

saves_a : set_job_in lenient (pos 0) 2 empty (job "a" "") ≡ some (with_a, none)
unfolding set_job_in set_job validate codes_of schedule_hash has get get_next parse next_of put
    stored ◌+ℤ◌ relink remove_from_parent add_to_parent get_parent after
saves_a = refl

saves_b : set_job_in lenient (pos 0) 2 with_a (job "b" "a") ≡ some (with_both, none)
unfolding set_job_in set_job validate codes_of schedule_hash has get get_next parse next_of put
    stored ◌+ℤ◌ relink remove_from_parent add_to_parent get_parent after
saves_b = refl

-- The jobs come without a list.
pub no_list :
    (m : Jobs) (n p x : String) → has (job n p).dependent_jobs x ≡ true → dependent m n x ≡ true
unfolding has
no_list m n p x claims = cc claims

history_a : History lenient with_a
history_a = next start (saved (pos 0) 0 (job "a" "") none (no_list [] "a" "") saves_a)

history_both : History lenient with_both
history_both =
    next history_a (saved (pos 0) 0 (job "b" "a") none (no_list with_a.jobs "b" "a") saves_b)

History-Linked_example : Linked lenient with_both.jobs
History-Linked_example = History-Linked lenient with_both history_both

set_job-Linked_example :
    (m : Jobs) × (set_job lenient (pos 0) 2 true with_both.jobs (job "b" "")
      ≡ some (m, refusal lenient with_both.jobs (job "b" "")))
    × Linked lenient m
    × ((c : String)
        → parent_at m c ≡ (
            if is_none (refusal lenient with_both.jobs (job "b" "")) && "b" == c
            then some ""
            else parent_at with_both.jobs c))
    × ((c : String)
        → scheduled_at m c ≡ (
            if is_none (refusal lenient with_both.jobs (job "b" "")) && "b" == c
            then scheduled (job "b" "")
            else scheduled_at with_both.jobs c))
set_job-Linked_example =
    set_job-Linked lenient (pos 0) 0 with_both.jobs (job "b" "")
      (History-Linked lenient with_both history_both) (no_list with_both.jobs "b" "")

delete_job-Linked_example :
    (m : Jobs) × (delete_job lenient (pos 0) 1 with_both.jobs "a"
      ≡ some (m, removal with_both.jobs "a"))
    × Linked lenient m
    × ((c : String)
        → parent_at m c ≡ (
            if is_none (removal with_both.jobs "a") && "a" == c
            then none
            else parent_at with_both.jobs c))
    × ((c : String)
        → scheduled_at m c ≡ (
            if is_none (removal with_both.jobs "a") && "a" == c
            then false
            else scheduled_at with_both.jobs c))
    × ((removal with_both.jobs "a" ≡ some dependents_exist)
        ↔ ((truthy "a" ≡ true) × (d : String) × (parent_at with_both.jobs d ≡ some "a")))
delete_job-Linked_example =
    delete_job-Linked lenient (pos 0) 0 with_both.jobs "a"
      (History-Linked lenient with_both history_both)

-- The jobs as the diagram gets them, `b` first
abbrev listed : Jobs
listed =
    ("b", kept (job "b" "a")) ∷ ("a", record (kept (job "a" "")) { dependent_jobs = "b" ∷ [] }) ∷ []

listed-Distinct : Distinct (keys listed)
unfolding has
listed-Distinct = (refl, (refl, tt))

swapped :
    {V : Type 0} (i j : String) (a b : V) (x : String)
    → (i == j) ≡ false
    → get ((j, b) ∷ (i, a) ∷ []) x ≡ get ((i, a) ∷ (j, b) ∷ []) x
unfolding get
swapped i j a b x apart = ground (arith, ==_iff i x, ==_iff j x, ==_iff i j)

find_descendants_iff_find_ancestors_example :
    (down : List String × Walk) × (up : List String × Walk) × (find_descendants
        (depth_bound (job_map (sent listed)))
        (job_map (sent listed))
        "a"
        (pos 0)
        (new_walk [])
      ≡ some down)
    × (find_ancestors
          (depth_bound (job_map (sent listed)))
          (job_map (sent listed))
          "b"
          (pos 0)
          (new_walk [])
        ≡ some up)
    × ((has down.0 "b" ≡ true) ↔ (has up.0 "a" ≡ true))
find_descendants_iff_find_ancestors_example =
    find_descendants_iff_find_ancestors lenient with_both listed "a" "b" history_both
      listed-Distinct (λ x. swapped "a" "b" _ _ x refl)

-- A run of `a` that succeeded within the first day
abbrev run : Execution
run = record {
  job_name = "a";
  started_at = pos 1000;
  finished_at = pos 2000;
  success = true;
  output = "";
  node_name = "";
  group = pos 1;
  attempt = 1;
}

set_execution_done_twice_example :
    set_execution_done (set_execution_done with_both run).0 run
    ≡ ((set_execution_done with_both run).0, again (set_execution_done with_both run).1)
set_execution_done_twice_example =
    set_execution_done_twice with_both run
      (History-Linked lenient with_both history_both).sound.named

-- It is counted once, and the day before it is not.
counts_run :
    total true (get_execution_stats (set_execution_done with_both run).0.stats (pos 0) (pos 7)) ≡ 1
unfolding set_execution_done get_execution_stats has get put codes_of total ◌-ℤ◌
counts_run = refl

total-get_execution_stats_example :
    (length (get_execution_stats with_both.stats (pos 3) (pos 7)) ≡ days_shown (pos 7))
    × (1 ≤ days_shown (pos 7))
    × (days_shown (pos 7) ≤ 365)
    × (total true
          (get_execution_stats (increment_stat (pos 2000) true with_both.stats) (pos 3) (pos 7))
        ≡ total true (get_execution_stats with_both.stats (pos 3) (pos 7))
          + (if shows (pos 3) (days_shown (pos 7)) (day_of (pos 2000))
              then counts_as true true
              else 0))
total-get_execution_stats_example =
    total-get_execution_stats with_both.stats (pos 3) (pos 2000) (pos 7) true true

abbrev runs : List Execution
runs = run ∷ record run { success = false; node_name = "n1" } ∷ []

abbrev node : String
node = "n1"

abbrev last : String
last = "b"

abbrev two_names : List String
two_names = "a" ∷ last ∷ []

-- The digits pass 64 bits before the letter is read.
out_of_range : atoi (codes_of "99999999999999999999x") ≡ pos 9223372036854775807
unfolding atoi codes_of
out_of_range = refl

-- A page that starts after the last job is no page, and one that ends after it ends with it.
no_page : jobs_page two_names (some (b'3' ∷ [])) none ≡ none
unfolding jobs_page
no_page = refl

last_page : jobs_page two_names (some (b'1' ∷ [])) (some (b'9' ∷ [])) ≡ some (last ∷ [])
unfolding jobs_page
last_page = refl

-- The store's own order is one that a sort can give.
abbrev in_order : List Execution → List Execution
in_order es = es

abbrev one_run : Executions
one_run = (key_of run, run) ∷ []

one_run-Distinct : Distinct (keys one_run)
unfolding has
one_run-Distinct = (refl, tt)

set_execution-limit_example :
    length (list_executions (list_prefix "a") (set_execution in_order one_run run)) ≤ 100
set_execution-limit_example =
    set_execution-limit in_order (λ es. Permᴰ.refl es) one_run run (refl, tt) one_run-Distinct
