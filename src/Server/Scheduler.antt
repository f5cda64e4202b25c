-- ===== src/Server/Scheduler.antt =====
-- `dkron/dkron/scheduler.go`: the scheduler and the jobs that it hands to the cron engine. The engine
-- is a package's; what it is known to do is in `CronEngine`. Metrics and logs are left out.
pub mod Entries
pub mod Laws
pub mod Zones
use phan_tan_dkron_giuaky.Common.{
  ℕ, ◌+◌, ◌≡◌, Bool, true, false, not, ◌&&◌, ◌||◌, Option, some, none, List, [], ◌∷◌, ◌++◌, String,
  ◌==◌, string_eq, if◌then◌else◌, eqb, codes_of,
}
use phan_tan_dkron_giuaky.Diagram.Defs.{truthy}
use phan_tan_dkron_giuaky.Server.Job.{Job, Error, hashed}
use phan_tan_dkron_giuaky.Server.Schedule.{has_prefix}
use phan_tan_dkron_giuaky.Server.Cron.{Checks, Schedule, parse}
use mathlib.Core.List.{Permᴰ}

-- An entry of the engine: its number and its job
abbrev pub Entry : Type 0
Entry = ℕ × Job

abbrev pub has_id : ℕ → Entry → Bool
has_id id x = eqb x.0 id

unfoldable pub without_id : ℕ → List Entry → List Entry
without_id id [] = []
without_id id (x ∷ xs) = if has_id id x then without_id id xs else x ∷ without_id id xs

-- How many of a list pass the test.
unfoldable pub tally : {A : Type 0} → (A → Bool) → List A → ℕ
tally test [] = 0
tally test (x ∷ xs) = if test x then 1 + tally test xs else tally test xs

-- The cron engine, made with `extcron.NewParser`. `AddJob` fails where the schedule does not parse, and
-- changes nothing then; else there is one more entry, under a number that no other has. `Remove` takes
-- the entries of a number out. `Entries` may put them in any order.
pub record CronEngine (k : Checks) : Type 1 where
  pub Engine : Type 0
  pub new : Engine
  pub entries : Engine → List Entry
  pub add : Engine → List ℕ → Job → Option Engine
  pub remove : Engine → ℕ → Engine
  pub entries-new : entries new ≡ []
  pub add-entries :
      (e : Engine) (spec : List ℕ) (j : Job) (s : Schedule)
      → parse k spec ≡ some s
      → (e' : Engine) × (id : ℕ) × (add e spec j ≡ some e')
        × (tally (has_id id) (entries e) ≡ 0)
        × Permᴰ (entries e') ((id, j) ∷ entries e)
  pub add-none : (e : Engine) (spec : List ℕ) (j : Job) → parse k spec ≡ none → add e spec j ≡ none
  pub remove-entries :
      (e : Engine) (id : ℕ) → Permᴰ (entries (remove e id)) (without_id id (entries e))

-- The errors of the scheduler and of the calls that end in it.
pub data Fault : Type 0 where
  already_started cron_error no_entry : Fault
  of_store : Error → Fault

-- The loop of `GetEntryJob`
unfoldable pub get_entry_job : List Entry → String → Option Entry
get_entry_job [] name = none
get_entry_job (x ∷ xs) name = if x.1.name == name then some x else get_entry_job xs name

-- The schedule that `AddJob` hands on: the time zone goes before a schedule that has none and is no
-- descriptor.
unfoldable pub takes_zone : List ℕ → Bool
unfolding has_prefix
takes_zone schedule =
    not (has_prefix (codes_of "@") schedule)
    && not (has_prefix (codes_of "TZ=") schedule)
    && not (has_prefix (codes_of "CRON_TZ=") schedule)

abbrev pub in_zone : String → List ℕ → List ℕ
in_zone zone schedule = codes_of "CRON_TZ=" ++ (codes_of zone ++ (codes_of " " ++ schedule))

unfoldable pub schedule_of : Job → List ℕ
unfolding takes_zone
schedule_of j =
    if truthy j.timezone && takes_zone (hashed j) then in_zone j.timezone (hashed j) else hashed j

module _ {k : Checks} (c : CronEngine k) where
  open c use {Engine, entries, add, remove}

  pub record Scheduler : Type 0 where
    pub cron : Engine
    pub started : Bool

  -- `RemoveJob`
  unfoldable pub remove_job : Engine → String → Engine
  unfolding get_entry_job
  remove_job e name = elim (get_entry_job (entries e) name) [ none ↦ e | some x ↦ remove e x.0 ]

  -- `AddJob`: an entry that is there is removed, and then the job is added if it is to run.
  unfoldable pub drop_entry : Engine → Job → Engine
  unfolding get_entry_job remove_job
  drop_entry e j = elim (get_entry_job (entries e) j.name) [
    | none ↦ e
    | some x ↦ remove_job e j.name
  ]

  unfoldable pub add_entry : Engine → Job → Engine × Option Fault
  add_entry e j =
      if j.disabled || truthy j.parent_job
      then (e, none)
      else elim (add e (schedule_of j) j) [ none ↦ (e, some cron_error) | some e' ↦ (e', none) ]

  unfoldable pub add_job : Engine → Job → Engine × Option Fault
  unfolding drop_entry add_entry
  add_job e j = add_entry (drop_entry e j) j

  -- The loop of `ClearCron`, over the entries as they were
  unfoldable pub clear_cron : List Entry → Engine → Engine
  clear_cron [] e = e
  clear_cron (x ∷ xs) e = clear_cron xs (remove_job e x.1.name)

  -- The loop of `Start`, which ends at the first error
  unfoldable pub add_jobs : Engine → List Job → Engine × Option Fault
  add_jobs e [] = (e, none)
  add_jobs e (j ∷ js) = elim (add_job e j).1 [
    | some f ↦ ((add_job e j).0, some f)
    | none ↦ add_jobs (add_job e j).0 js
  ]

  -- `Start`
  unfoldable pub start : Scheduler → List Job → Scheduler × Option Fault
  unfolding clear_cron add_jobs
  start s jobs =
      if s.started
      then (s, some already_started)
      else let added = add_jobs (clear_cron (entries s.cron) s.cron) jobs in
        elim added.1 [
          | some f ↦ (record s { cron = added.0 }, some f)
          | none ↦ (record s { cron = added.0; started = true }, none)
        ]

  -- `Stop`. The entries stay.
  unfoldable pub stop : Scheduler → Scheduler
  stop s = record s { started = false }
