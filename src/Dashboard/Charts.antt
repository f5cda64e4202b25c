-- ===== src/Dashboard/Charts.antt =====
-- `dkron/ui/src/dashboard/ExecutionStatsChart.tsx` and `JobChart.tsx`: the data of the two charts. The
-- counts of executions are natural numbers, exact below 2 ^ 53; how a date is written is an argument.
pub mod Totals
pub mod Jobs
use phan_tan_dkron_giuaky.Common.{
  ℕ, ◌+◌, ◌≡◌, Bool, true, false, Option, some, none, List, [], ◌∷◌, map, String, get, put, foldl,
  has_key, eqb, string_eq, if◌then◌else◌, ◌==◌,
}

pub record ExecutionStat : Type 0 where
  pub date : String
  pub success_count : ℕ
  pub failed_count : ℕ

pub record ChartDataPoint : Type 0 where
  pub date : String
  pub date_formatted : String
  pub success : ℕ
  pub failed : ℕ
  pub total : ℕ

module _ (date_formatter : String → String) where
  unfoldable pub chart_point : ExecutionStat → ChartDataPoint
  chart_point stat = record {
    date = stat.date;
    date_formatted = date_formatter stat.date;
    success = stat.success_count;
    failed = stat.failed_count;
    total = stat.success_count + stat.failed_count;
  }

  unfoldable pub chart_data : List ExecutionStat → List ChartDataPoint
  unfolding chart_point
  chart_data stats = map chart_point stats

-- `data.reduce((sum, d) => sum + d.success, 0)`, and the same for `failed`
unfoldable pub total_success : List ChartDataPoint → ℕ
total_success points = foldl (λ sum d. sum + d.success) 0 points

unfoldable pub total_failed : List ChartDataPoint → ℕ
total_failed points = foldl (λ sum d. sum + d.failed) 0 points

-- The state of `ExecutionStatsChart`.
pub record State : Type 0 where
  pub points : List ChartDataPoint
  pub loading : Bool
  pub error : Option String

abbrev pub initial : State
initial = record { points = []; loading = true; error = none }

-- What happens in `fetchStats`, the `finally` block included. Whatever goes wrong, also in the answer's
-- data, ends in the `catch` block.
pub data Event : Type 0 where
  fetch_started : Event
  stats_arrived : List ExecutionStat → Event
  fetch_failed : Event

unfoldable pub react : (String → String) → State → Event → State
unfolding chart_data
react fmt s fetch_started = record s { loading = true }
react fmt s (stats_arrived stats) = record {
  points = chart_data fmt stats;
  loading = false;
  error = none;
}
react fmt s fetch_failed = record s { loading = false; error = some "Failed to load statistics" }

-- The three things that the component returns: a spinner, the error, or the chart under the numbers
-- of its subheader: all executions, the successful and the failed ones.
pub data View : Type 0 where
  spinner : View
  failure : String → View
  chart : ℕ → ℕ → ℕ → List ChartDataPoint → View

unfoldable pub view : State → View
unfolding total_success total_failed
view s = if s.loading then spinner else elim s.error [
  | some e ↦ failure e
  | none ↦
      chart (total_success s.points + total_failed s.points) (total_success s.points)
        (total_failed s.points) s.points
]

-- `value === 'success' ? 'Successful' : 'Failed'`
unfoldable pub display_name : String → String
display_name name = if name == "success" then "Successful" else "Failed"

-- `JobChart.tsx`: the data of one job.
pub record JobData : Type 0 where
  pub date : String
  pub total : ℕ

module _ (day_of : String → String) where
  -- `if (!acc[day]) { acc[day] = 0; } acc[day] += curr.total;`
  unfoldable pub add_to_day : List (String × ℕ) → JobData → List (String × ℕ)
  add_to_day acc curr =
      let day = day_of curr.date in
      elim (get acc day) [
        | none ↦ put (put acc day 0) day (0 + curr.total)
        | some n ↦ put (if eqb n 0 then put acc day 0 else acc) day (n + curr.total)
      ]

  unfoldable pub totals_by_day : List JobData → List (String × ℕ)
  unfolding add_to_day
  totals_by_day jobs = foldl add_to_day [] jobs

pub record TotalByDay : Type 0 where
  pub date : ℕ
  pub total : ℕ

-- `aggregateJobsByHour`, with the time of a day, `new Date(date).getTime()`, as an argument
unfoldable pub aggregate_jobs_by_hour :
    (String → String) → (String → ℕ) → List JobData → List TotalByDay
unfolding totals_by_day
aggregate_jobs_by_hour day_of time_of jobs =
    map (λ entry. record { date = time_of entry.0; total = entry.1 }) (totals_by_day day_of jobs)
