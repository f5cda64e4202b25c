-- ===== src/Server/Job.antt =====
-- `dkron/dkron/job.go`: the job, its way into the store and out of it, and `Validate`; and
-- `dkron/ntime/ntime.go`. Times are nanoseconds since 1970. What packages decide is in `Checks`.
use phan_tan_dkron_giuaky.Common.{
  ℕ, ◌-◌, ◌%◌, Bool, true, false, not, ◌&&◌, ◌||◌, Option, some, none, List, [], ◌∷◌, String, ℤ,
  pos, negsuc, ◌==◌, string_eq, get, if◌then◌else◌, ◌>>=◌, ltb, leb, leb_ℤ, codes_of, eqb,
}
use phan_tan_dkron_giuaky.Diagram.Defs.{truthy}
use phan_tan_dkron_giuaky.Server.Schedule.{schedule_hash}
use phan_tan_dkron_giuaky.Server.Cron.{Checks, parse, next_of, zero_time}
use phan_tan_dkron_giuaky.Server.Memory.{memory_limit_valid}

pub record Job : Type 0 where
  pub name : String
  pub displayname : String
  pub timezone : String
  pub schedule : String
  pub owner : String
  pub owner_email : String
  pub success_count : ℤ
  pub error_count : ℤ
  pub last_success : Option ℤ
  pub last_error : Option ℤ
  pub disabled : Bool
  pub tags : List (String × String)
  pub metadata : List (String × String)
  pub retries : ℕ
  pub dependent_jobs : List String
  pub parent_job : String
  pub processors : List (String × List (String × String))
  pub concurrency : String
  pub executor : String
  pub executor_config : List (String × String)
  pub status : String
  pub next : ℤ
  pub ephemeral : Bool
  pub starts_at : Option ℤ
  pub expires_at : Option ℤ

-- The language's conversion to a signed number of 32 bits.
unfoldable pub signed_32 : ℕ → ℤ
signed_32 r = if ltb r 2147483648 then pos r else negsuc (4294967295 - r)

unfoldable pub int_32 : ℤ → ℤ
unfolding signed_32
int_32 (pos n) = signed_32 (n % 4294967296)
int_32 (negsuc n) = signed_32 (4294967295 - n % 4294967296)

-- A job as it comes back from the store: `ToProto`, and then `NewJobFromProto`. The counters pass
-- through 32 bits.
unfoldable pub stored : Job → Job
unfolding int_32
stored j = record j {
  success_count = int_32 j.success_count;
  error_count = int_32 j.error_count;
  retries = j.retries % 4294967296;
}

-- `NullableTime.After`
unfoldable pub after : Option ℤ → Option ℤ → Bool
after none u = false
after (some t) none = true
after (some t) (some u) = not (leb_ℤ t u)

-- The errors of jobs and of the store.
pub data Error : Type 0 where
  name_empty illegal_character same_parent schedule_parse wrong_concurrency bad_timezone bad_timeout
        bad_memory_limit parent_not_found no_parent not_found dependents_exist
        execution_done_for_deleted_job :
      Error

-- `executor_config[key]`: a missing key is the empty text.
unfoldable pub config_of : Job → String → String
config_of j key = elim (get j.executor_config key) [ none ↦ "" | some v ↦ v ]

abbrev pub hashed : Job → List ℕ
hashed j = schedule_hash (codes_of j.name) (codes_of j.schedule)

-- `j.StartsAt.HasValue() && time.Now().Before(j.StartsAt.Get())`, with that time
unfoldable pub starts_later : ℤ → Option ℤ → Option ℤ
starts_later now none = none
starts_later now (some t) = if leb_ℤ t now then none else some t

unfoldable pub is_none : {A : Type 0} → Option A → Bool
is_none none = true
is_none (some a) = false

module _ (k : Checks) where
  open k use {is_lower, location_exists, duration_parses}

  abbrev allowed : ℕ → Bool
  allowed c = is_lower c || (leb b'0' c && leb c b'9') || eqb c b'_' || eqb c b'-'

  unfoldable pub is_slug : List ℕ → Bool
  is_slug [] = true
  is_slug (c ∷ s) = allowed c && is_slug s

  abbrev timeout_fails : Job → Bool
  timeout_fails j =
      j.executor == "shell"
      && truthy (config_of j "timeout")
      && not (duration_parses (config_of j "timeout"))

  abbrev memory_limit_fails : Job → Bool
  memory_limit_fails j =
      j.executor == "shell"
      && truthy (config_of j "mem_limit")
      && not (memory_limit_valid k (codes_of (config_of j "mem_limit")))

  -- `Validate`: the first error, `none` if there is none
  unfoldable pub validate : Job → Option Error
  unfolding is_slug config_of is_none
  validate j =
      if not (truthy j.name)
      then some name_empty
      else if not (is_slug (codes_of j.name))
      then some illegal_character
      else if j.parent_job == j.name
      then some same_parent
      else if (truthy j.schedule || not (truthy j.parent_job)) && is_none (parse k (hashed j))
      then some schedule_parse
      else if not (j.concurrency == "allow")
          && not (j.concurrency == "forbid")
          && truthy j.concurrency
      then some wrong_concurrency
      else if not (location_exists j.timezone)
      then some bad_timezone
      else if timeout_fails j
      then some bad_timeout
      else if memory_limit_fails j
      then some bad_memory_limit
      else none

  -- `GetNext`, at the time `now`: `none` where the schedule does not parse
  unfoldable pub get_next : ℤ → Job → Option ℤ
  unfolding starts_later
  get_next now j = elim (starts_later now j.starts_at) [
    | some t ↦ some t
    | none ↦
        if truthy j.schedule
        then (parse k (hashed j) >>= λ s. some (next_of k s now))
        else some zero_time
  ]
