-- ===== src/Server/Store.antt =====
-- `dkron/dkron/store.go`: how jobs are saved and deleted, with the list of dependent jobs that each
-- parent keeps; and `GetParent` of `dkron/dkron/job.go`. The jobs of the store are a map from names; a
-- job that is read comes back as it was saved.
pub mod Links
mod Resave
pub mod Parents
pub mod Relink
mod Prepare
mod Saves
pub mod Tree
pub mod Erase
pub mod Deletes
pub mod Restamp
use phan_tan_dkron_giuaky.Common.{
  ℕ, zero, suc, ◌≡◌, Bool, true, false, not, ◌&&◌, Option, some, none, List, [], ◌∷◌, ◌++◌, String,
  ℤ, pos, ◌==◌, string_eq, get, put, erase, if◌then◌else◌, leb_ℤ, ◌>>=◌,
}
use phan_tan_dkron_giuaky.Diagram.Defs.{truthy}
use phan_tan_dkron_giuaky.Server.Job.{
  Job, Error, same_parent, no_parent, parent_not_found, schedule_parse, not_found, dependents_exist,
  validate, get_next, after, stored,
}
use phan_tan_dkron_giuaky.Server.Cron.{Checks}

abbrev pub Jobs : Type 0
Jobs = List (String × Job)

-- The result of a call, or its error.
pub data Result (A : Type 0) : Type 0 where
  ok : A → Result A
  err : Error → Result A

-- `GetParent`
unfoldable pub get_parent : Jobs → Job → Result Job
get_parent m j =
    if j.name == j.parent_job
    then err same_parent
    else if not (truthy j.parent_job)
    then err no_parent
    else elim (get m j.parent_job) [ none ↦ err parent_not_found | some p ↦ ok p ]

-- What the saved job `ej` keeps in the new one.
unfoldable pub merge : Bool → Job → Job → Job
merge copy_dependent_jobs ej j = record j {
  last_error = if after ej.last_error j.last_error then ej.last_error else j.last_error;
  last_success = if after ej.last_success j.last_success then ej.last_success else j.last_success;
  success_count =
      if leb_ℤ ej.success_count j.success_count then j.success_count else ej.success_count;
  error_count = if leb_ℤ ej.error_count j.error_count then j.error_count else ej.error_count;
  dependent_jobs = elim ej.dependent_jobs [
    | [] ↦ j.dependent_jobs
    | d ∷ ds ↦ if copy_dependent_jobs then d ∷ ds else j.dependent_jobs
  ];
  status = if truthy ej.status then ej.status else j.status;
}

-- All names but one
unfoldable pub without : String → List String → List String
without name [] = []
without name (d ∷ ds) = if d == name then without name ds else d ∷ without name ds

-- A call's jobs afterwards and its error; `none` where the fuel of `SetJob` runs out.
abbrev pub Outcome : Type 0
Outcome = Option (Jobs × Option Error)

-- `removeFromParent` and `addToParent`, with the call of `SetJob` as `save`. A job that is not there
-- has no parent.
unfoldable pub remove_from_parent : (Jobs → Job → Outcome) → Jobs → Option Job → Outcome
unfolding without
remove_from_parent save m none = some (m, none)
remove_from_parent save m (some child) =
    if not (truthy child.parent_job) then some (m, none) else elim (get_parent m child) [
      | err e ↦ some (m, some e)
      | ok p ↦ save m (record p { dependent_jobs = without child.name p.dependent_jobs })
    ]

unfoldable pub add_to_parent : (Jobs → Job → Outcome) → Jobs → Job → Outcome
add_to_parent save m child =
    if not (truthy child.parent_job) then some (m, none) else elim (get_parent m child) [
      | err e ↦ some (m, some e)
      | ok p ↦ save m (record p { dependent_jobs = p.dependent_jobs ++ child.name ∷ [] })
    ]

abbrev pub parent_of_saved : Option Job → String
parent_of_saved none = ""
parent_of_saved (some ej) = ej.parent_job

-- `job.ParentJob` is set, and no such job is there.
unfoldable pub parent_missing : Jobs → Job → Bool
parent_missing m j =
    truthy j.parent_job && elim (get m j.parent_job) [ none ↦ true | some p ↦ false ]

-- What follows the transaction: the parents are updated if the parent changed.
unfoldable pub relink : (Jobs → Job → Outcome) → Jobs → Option Job → Job → Outcome
relink save m ej j =
    if j.parent_job == parent_of_saved ej
    then some (m, none)
    else remove_from_parent save m ej >>= λ r. elim r.1 [
      | some e ↦ some (r.0, some e)
      | none ↦ add_to_parent save r.0 j
    ]

module _ (k : Checks) (now : ℤ) where
  -- `Next`, from the schedule and the next time of the saved job
  unfoldable pub with_next : String → ℤ → Job → Result Job
  with_next schedule next j =
      if not (j.schedule == schedule)
      then elim (get_next k now j) [
        | none ↦ err schedule_parse
        | some t ↦ ok (record j { next = t })
      ]
      else ok (if leb_ℤ next j.next then j else record j { next = next })

  -- The transaction of `SetJob`: the job to be saved. Where there is none yet, the next time that is
  -- compared with is that of an empty message, 1970.
  unfoldable pub prepare : Bool → Option Job → Job → Result Job
  unfolding merge with_next
  prepare copy_dependent_jobs none j = with_next "" (pos 0) j
  prepare copy_dependent_jobs (some ej) j =
      with_next ej.schedule ej.next (merge copy_dependent_jobs ej j)

  -- `SetJob`. The fuel is for the calls of itself.
  unfoldable pub set_job : ℕ → Bool → Jobs → Job → Outcome
  unfolding parent_missing prepare relink
  set_job zero copy m j = none
  set_job (suc fuel) copy m j = elim (validate k j) [
    | some e ↦ some (m, some e)
    | none ↦
        if parent_missing m j
        then some (m, some parent_not_found)
        else elim (prepare copy (get m j.name) j) [
          | err e ↦ some (m, some e)
          | ok j' ↦ relink (set_job fuel false) (put m j.name (stored j')) (get m j.name) j'
        ]
  ]

  -- `DeleteJob`, on the jobs. The job's executions go with it.
  unfoldable pub delete_job : ℕ → Jobs → String → Outcome
  unfolding remove_from_parent
  delete_job fuel m name = elim (get m name) [
    | none ↦ some (m, some not_found)
    | some j ↦ elim j.dependent_jobs [
      | d ∷ ds ↦ some (m, some dependents_exist)
      | [] ↦ remove_from_parent (set_job fuel false) (erase m name) (some j)
    ]
  ]
