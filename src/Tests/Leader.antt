-- ===== src/Tests/Leader.antt =====
-- A server with a cron engine that keeps its entries in a list.
use phan_tan_dkron_giuaky.Common.{
  ℕ, suc, ◌+◌, ◌≡◌, ◌<◌, refl, true, false, not, ◌||◌, Option, some, none, List, [], ◌∷◌, String, ℤ,
  pos, negsuc, ◌+ℤ◌, ◌-ℤ◌, string_eq, codes_eq, int_eq, get, put, has, codes_of, if◌then◌else◌,
  arith,
}
use phan_tan_dkron_giuaky.Diagram.Defs.{truthy}
use phan_tan_dkron_giuaky.Server.Job.{Job, validate, stored, get_next, is_none}
use phan_tan_dkron_giuaky.Server.Schedule.{schedule_hash}
use phan_tan_dkron_giuaky.Server.Cron.{Schedule, parse, next_of}
use phan_tan_dkron_giuaky.Server.Store.{
  set_job, relink, remove_from_parent, add_to_parent, get_parent, parent_missing,
}
use phan_tan_dkron_giuaky.Server.Scheduler.{
  Entry, has_id, without_id, tally, CronEngine, add_job, schedule_of, start, stop,
}
use phan_tan_dkron_giuaky.Server.Scheduler.Entries.{named}
use phan_tan_dkron_giuaky.Server.Scheduler.Zones.{Zoned}
use phan_tan_dkron_giuaky.Server.History.{empty}
use phan_tan_dkron_giuaky.Server.Executions.{
  Execution, Db, key_of, decimal, list_prefix, list_executions, set_execution_done,
}
use phan_tan_dkron_giuaky.Server.Executions.Orphans.{reconcile, is_stale, running, short_key}
use phan_tan_dkron_giuaky.Server.Leader.{Leader, get_jobs, create_or_update, establish, revoke}
use phan_tan_dkron_giuaky.Server.Leader.Moves.{
  Reached, new, next, saved, established, revoked, ListsOwn,
}
use phan_tan_dkron_giuaky.Server.Leader.Reach.{Reached-entries, Reached-answers, Reached-establish}
use phan_tan_dkron_giuaky.Tests.Server.{lenient, job}
use mathlib.Core.List.{Permᴰ}
use mathlib.Core.List.Permᴰ

abbrev id_sum : List Entry → ℕ
id_sum [] = 0
id_sum (x ∷ xs) = x.0 + id_sum xs

fresh : (xs : List Entry) (id : ℕ) → id_sum xs < id → tally (has_id id) xs ≡ 0
unfolding tally
fresh [] id above = refl
fresh (x ∷ xs) id above = ground (arith, fresh xs id)

abbrev add_to_list : List Entry → List ℕ → Job → Option (List Entry)
add_to_list xs spec j = elim (parse lenient spec) [
  | none ↦ none
  | some s ↦ some ((suc (id_sum xs), j) ∷ xs)
]

adds :
    (xs : List Entry) (spec : List ℕ) (j : Job) (s : Schedule)
    → parse lenient spec ≡ some s
    → (ys : List Entry) × (id : ℕ) × (add_to_list xs spec j ≡ some ys)
      × (tally (has_id id) xs ≡ 0)
      × Permᴰ ys ((id, j) ∷ xs)
adds xs spec j s parsed = (
  (suc (id_sum xs), j) ∷ xs,
  suc (id_sum xs),
  rw (add_to_list, parsed) refl,
  fresh xs (suc (id_sum xs)) (omega arith),
  Permᴰ.refl _,
)

refuses :
    (xs : List Entry) (spec : List ℕ) (j : Job)
    → parse lenient spec ≡ none
    → add_to_list xs spec j ≡ none
refuses xs spec j unparsed = rw (add_to_list, unparsed) refl

abbrev list_engine : CronEngine lenient
list_engine = record {
  Engine = List Entry;
  new = [];
  entries = λ xs. xs;
  add = add_to_list;
  remove = λ xs id. without_id id xs;
  entries-new = refl;
  add-entries = adds;
  add-none = refuses;
  remove-entries = λ xs id. Permᴰ.refl _;
}

lenient-Zoned : Zoned lenient
unfolding codes_of
lenient-Zoned = record { with_zone = λ zone schedule given there takes parses. refl }

-- The server becomes the leader and stores the job `a`.
abbrev leading : Leader list_engine
leading = record { jobs = []; sched = record { cron = []; started = true } }

abbrev kept_a : Job
kept_a = record (job "a" "") { next = pos 3600000000000 }

abbrev with_a : Leader list_engine
with_a = record {
  jobs = ("a", kept_a) ∷ [];
  sched = record { cron = (1, job "a" "") ∷ []; started = true };
}

own_lists : (m : List (String × Job)) (n p : String) → ListsOwn m (job n p)
unfolding has
own_lists m n p x claims = cc claims

abbrev no_clock : String → ℤ
no_clock name = pos 20000000000000

leads : Reached list_engine leading
unfolding establish start get_jobs
leads = next new (established [] none no_clock empty refl Permᴰ.nil refl)

saves_a : create_or_update list_engine (pos 0) 2 false leading (job "a" "") ≡ some (with_a, 201)
unfolding create_or_update add_job set_job validate codes_of schedule_hash has get get_next parse
    next_of put stored ◌+ℤ◌ relink remove_from_parent add_to_parent get_parent schedule_of
saves_a = refl

has_a : Reached list_engine with_a
has_a = next leads (saved (pos 0) 0 false (job "a" "") 201 (own_lists [] "a" "") saves_a)

Reached-entries_example : tally (named "a") ((1, job "a" "") ∷ []) ≡ (elim (get with_a.jobs "a") [
  | none ↦ 0
  | some j ↦ if j.disabled || truthy j.parent_job then 0 else 1
])
Reached-entries_example = Reached-entries list_engine lenient-Zoned with_a has_a refl "a"

Reached-answers_example :
    (l : Leader list_engine) × (create_or_update list_engine (pos 0) 2 false with_a (job "b" "c")
      ≡ some (
        l,
        if false
            then 503
            else if not (is_none (validate lenient (job "b" "c")))
            then 400
            else if parent_missing with_a.jobs (job "b" "c")
            then 404
            else 201,
      ))
Reached-answers_example =
    Reached-answers list_engine lenient-Zoned with_a (pos 0) 0 false (job "b" "c") has_a
      (own_lists with_a.jobs "b" "c")

-- It was the leader once, and is again; an execution of the job was lost.
abbrev lost : Execution
lost = record {
  job_name = "a";
  started_at = pos 1;
  finished_at = negsuc 62135596799999999999;
  success = false;
  output = "";
  node_name = "n1";
  group = pos 1;
  attempt = 1;
}

abbrev with_lost : Db
with_lost = record { jobs = with_a.jobs; executions = (key_of lost, lost) ∷ []; stats = [] }

lost_failed :
    (elim (get (reconcile [] no_clock with_lost (kept_a ∷ [])).jobs "a") [
      | none ↦ pos 0
      | some j ↦ j.error_count
    ])
    ≡ pos 1
unfolding reconcile get list_prefix list_executions key_of decimal is_stale has running
    set_execution_done codes_of short_key ◌-ℤ◌ put ◌+ℤ◌
lost_failed = refl

abbrev waiting : Leader list_engine
waiting = record {
  jobs = with_a.jobs;
  sched = record { cron = with_a.sched.cron; started = false };
}

waits : Reached list_engine waiting
unfolding revoke stop
waits = next has_a (revoked refl)

Reached-establish_example :
    (l : Leader list_engine) × (establish list_engine waiting
        (kept_a ∷ [])
        (some [])
        no_clock
        with_lost
      ≡ (l, none))
    × (l.sched.started ≡ true)
    × ((n : String) (j : Job)
        → get l.jobs n ≡ some j
        → j.disabled ≡ false
        → truthy j.parent_job ≡ false
        → tally (named n) l.sched.cron ≡ 1)
unfolding get_jobs
Reached-establish_example =
    Reached-establish list_engine lenient-Zoned waiting (kept_a ∷ []) (some []) no_clock with_lost
      waits refl refl (Permᴰ.refl _)
