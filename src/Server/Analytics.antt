-- ===== src/Server/Analytics.antt =====
-- `dkron/dkron/api_analytics.go`: the loop of `analyticsHandler` over the executions, which counts them
-- in all and by node. Durations are nanoseconds in 64 bits: a single one is not negative, and the sums,
-- which wrap, are held as their bits. The counters are no larger than the list is long. The rates and
-- averages that follow are floating-point quotients of these numbers.
pub mod Tallies
use phan_tan_dkron_giuaky.Common.{
  ℕ, zero, suc, ◌+◌, ◌*◌, ◌%◌, ◌≤◌, ◌≡◌, refl, ap, ◌∙◌, Bool, true, false, not, ◌&&◌, ◌||◌, Option,
  some, none, List, [], ◌∷◌, String, ℤ, pos, negsuc, ◌-ℤ◌, pos_part, ◌==◌, ==_iff, int_eq,
  string_eq, get, put, get-put, if◌then◌else◌, leb_ℤ, ltb, eqb, length, arith, Bool-cases,
}
use phan_tan_dkron_giuaky.Diagram.Defs.{truthy}
use phan_tan_dkron_giuaky.Server.Executions.{Execution}

pub record NodeAnalytics : Type 0 where
  pub total_executions : ℕ
  pub successful_executions : ℕ
  pub failed_executions : ℕ

-- The variables of the loop, but for the number of executions.
pub record Sums : Type 0 where
  pub success_count : ℕ
  pub failed_count : ℕ
  pub total_duration : ℕ
  pub min_duration : ℕ
  pub max_duration : ℕ
  pub duration_sample_count : ℕ
  pub last_execution_at : Option ℤ
  pub node_stats : List (String × NodeAnalytics)
  pub node_durations : List (String × ℕ)
  pub node_duration_samples : List (String × ℕ)

abbrev pub no_sums : Sums
no_sums = record {
  success_count = 0;
  failed_count = 0;
  total_duration = 0;
  min_duration = 0;
  max_duration = 0;
  duration_sample_count = 0;
  last_execution_at = none;
  node_stats = [];
  node_durations = [];
  node_duration_samples = [];
}

-- What a map of the language gives for a missing key
unfoldable pub node_at : List (String × NodeAnalytics) → String → NodeAnalytics
node_at m n = elim (get m n) [
  | none ↦ record { total_executions = 0; successful_executions = 0; failed_executions = 0 }
  | some a ↦ a
]

unfoldable pub number_at : List (String × ℕ) → String → ℕ
number_at m n = elim (get m n) [ none ↦ 0 | some a ↦ a ]

-- `IsZero`: the start of the year 1
abbrev pub is_zero : ℤ → Bool
is_zero t = t == negsuc 62135596799999999999

abbrev pub node_of : Execution → String
node_of e = if truthy e.node_name then e.node_name else "unknown"

unfoldable pub count_node : Execution → NodeAnalytics → NodeAnalytics
count_node e a = record {
  total_executions = a.total_executions + 1;
  successful_executions =
      if e.success then a.successful_executions + 1 else a.successful_executions;
  failed_executions = if e.success then a.failed_executions else a.failed_executions + 1;
}

unfoldable pub later_of : Option ℤ → ℤ → Option ℤ
later_of none t = some t
later_of (some u) t = if leb_ℤ t u then some u else some t

-- Whether the execution has a duration, and the duration
abbrev pub is_sample : Execution → Bool
is_sample e =
    not (is_zero e.finished_at) && not (is_zero e.started_at) && leb_ℤ e.started_at e.finished_at

-- `Sub` gives the longest duration where the difference is longer.
abbrev pub duration_of : Execution → ℕ
duration_of e =
    let d = pos_part (e.finished_at -ℤ e.started_at) in
    if ltb 9223372036854775807 d then 9223372036854775807 else d

-- `+=` on durations, as bits
unfoldable pub add_64 : ℕ → ℕ → ℕ
add_64 a b = (a + b) % 18446744073709551616

unfoldable pub count_sample : Execution → Sums → Sums
unfolding number_at add_64
count_sample e t =
    let d = duration_of e in
    record t {
      total_duration = add_64 t.total_duration d;
      duration_sample_count = t.duration_sample_count + 1;
      node_durations =
          put t.node_durations (node_of e) (add_64 (number_at t.node_durations (node_of e)) d);
      node_duration_samples =
          put t.node_duration_samples (node_of e)
            (number_at t.node_duration_samples (node_of e) + 1);
      min_duration = if eqb t.min_duration 0 || ltb d t.min_duration then d else t.min_duration;
      max_duration = if ltb t.max_duration d then d else t.max_duration;
    }

unfoldable pub count_outcome : Execution → Sums → Sums
unfolding node_at count_node later_of
count_outcome e t = record t {
  success_count = if e.success then t.success_count + 1 else t.success_count;
  failed_count = if e.success then t.failed_count else t.failed_count + 1;
  node_stats = put t.node_stats (node_of e) (count_node e (node_at t.node_stats (node_of e)));
  last_execution_at =
      if is_zero e.finished_at
      then t.last_execution_at
      else later_of t.last_execution_at e.finished_at;
}

-- The body of the loop, and the loop
unfoldable pub count : Sums → Execution → Sums
unfolding count_outcome count_sample
count t e = if is_sample e then count_sample e (count_outcome e t) else count_outcome e t

unfoldable pub count_all : Sums → List Execution → Sums
unfolding count
count_all t [] = t
count_all t (e ∷ es) = count_all (count t e) es
