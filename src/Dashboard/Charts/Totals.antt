-- ===== src/Dashboard/Charts/Totals.antt =====
-- No execution is lost or counted twice on the way into the charts.
use native.Mathlib.Nat.{zero-add}
use phan_tan_dkron_giuaky.Common.{
  ℕ, ◌+◌, ◌≡◌, refl, ◌∙◌, ap, Option, some, none, inl, inr, List, [], ◌∷◌, map, String, get,
  get-put, put, keys, keys-put-Distinct, Distinct, foldl, eqb, string_eq, if◌then◌else◌, ◌==◌,
  ==_iff, Option-cases, Bool-cases, arith,
}
use phan_tan_dkron_giuaky.Dashboard.Charts.{
  ExecutionStat, ChartDataPoint, chart_point, chart_data, total_success, total_failed, State, react,
  stats_arrived, view, chart, JobData, add_to_day, totals_by_day,
}

-- The sum of a number over a list.
pub sum_by : {A : Type 0} → (A → ℕ) → List A → ℕ
sum_by f [] = 0
sum_by f (x ∷ xs) = f x + sum_by f xs

foldl-sum :
    {A : Type 0} (f : A → ℕ) (n : ℕ) (xs : List A)
    → foldl (λ sum x. sum + f x) n xs ≡ n + sum_by f xs
unfolding sum_by
foldl-sum f n [] = omega arith
foldl-sum f n (x ∷ xs) = foldl-sum f (n + f x) xs ∙ omega arith

sum_by-map :
    {A B : Type 0} (f : B → ℕ) (g : A → B) (xs : List A)
    → sum_by f (map g xs) ≡ sum_by (λ x. f (g x)) xs
unfolding sum_by
sum_by-map f g [] = refl
sum_by-map f g (x ∷ xs) = ap (λ n. f (g x) + n) (sum_by-map f g xs)

sum_by-add :
    {A : Type 0} (f g : A → ℕ) (xs : List A)
    → sum_by (λ x. f x + g x) xs ≡ sum_by f xs + sum_by g xs
unfolding sum_by
sum_by-add f g [] = omega arith
sum_by-add f g (x ∷ xs) = omega (arith, sum_by-add f g xs)

abbrev success_of : ExecutionStat → ℕ
success_of stat = stat.success_count

abbrev failed_of : ExecutionStat → ℕ
failed_of stat = stat.failed_count

module _ (fmt : String → String) where
  total_success_lem :
      (stats : List ExecutionStat) → total_success (chart_data fmt stats) ≡ sum_by success_of stats
  unfolding total_success chart_data chart_point
  total_success_lem stats =
      foldl-sum (λ (p : ChartDataPoint). p.success) 0 (map (chart_point fmt) stats)
      ∙ (zero-add _ ∙ sum_by-map (λ (p : ChartDataPoint). p.success) (chart_point fmt) stats)

  total_failed_lem :
      (stats : List ExecutionStat) → total_failed (chart_data fmt stats) ≡ sum_by failed_of stats
  unfolding total_failed chart_data chart_point
  total_failed_lem stats =
      foldl-sum (λ (p : ChartDataPoint). p.failed) 0 (map (chart_point fmt) stats)
      ∙ (zero-add _ ∙ sum_by-map (λ (p : ChartDataPoint). p.failed) (chart_point fmt) stats)

  totals_of_points :
      (stats : List ExecutionStat)
      → sum_by (λ (p : ChartDataPoint). p.total) (chart_data fmt stats)
        ≡ sum_by success_of stats + sum_by failed_of stats
  unfolding chart_data chart_point
  totals_of_points stats =
      sum_by-map (λ (p : ChartDataPoint). p.total) (chart_point fmt) stats
      ∙ sum_by-add success_of failed_of stats

-- When the statistics arrive, the chart is shown, whatever was there before, one point for each day
-- in order; its subheader gives the sum of the successful and of the failed executions that arrived,
-- and their sum, which is also the sum of the totals of the points.
view_stats_arrived :
    (fmt : String → String) (s : State) (stats : List ExecutionStat)
    → (view (react fmt s (stats_arrived stats))
        ≡ chart
            (sum_by success_of stats + sum_by failed_of stats)
            (sum_by success_of stats)
            (sum_by failed_of stats)
            (chart_data fmt stats))
      × (sum_by (λ (p : ChartDataPoint). p.total) (chart_data fmt stats)
          ≡ sum_by success_of stats + sum_by failed_of stats)
      × (map (λ (p : ChartDataPoint). p.date) (chart_data fmt stats)
          ≡ map (λ (e : ExecutionStat). e.date) stats)
unfolding view react chart_data chart_point
view_stats_arrived fmt s stats = (
  cc (total_success_lem fmt stats, total_failed_lem fmt stats),
  totals_of_points fmt stats,
  dates stats,
)
  where
    dates :
        (es : List ExecutionStat)
        → map (λ (p : ChartDataPoint). p.date) (map (chart_point fmt) es)
          ≡ map (λ (e : ExecutionStat). e.date) es
    dates [] = refl
    dates (e ∷ es) = ap (e.date ∷◌) (dates es)

-- What a day has so far: nothing counts as 0.
abbrev pub count_of : Option ℕ → ℕ
count_of none = 0
count_of (some n) = n

abbrev pub values : List (String × ℕ) → List ℕ
values [] = []
values ((k, n) ∷ m) = n ∷ values m

-- A write changes the sum by what it changes at its key.
sum-put :
    (m : List (String × ℕ)) (k : String) (n : ℕ)
    → sum_by (λ v. v) (values (put m k n)) + count_of (get m k) ≡ sum_by (λ v. v) (values m) + n
unfolding sum_by put get
sum-put [] k n = omega arith
sum-put ((j, v) ∷ m) k n = ground (arith, sum-put m k n)

module _ (day_of : String → String) where
  add_to_day-count :
      (acc : List (String × ℕ)) (job : JobData) (d : String)
      → count_of (get (add_to_day day_of acc job) d)
        ≡ count_of (get acc d) + (if day_of job.date == d then job.total else 0)
  unfolding add_to_day
  add_to_day-count acc job d =
      let day = day_of job.date in
      let n = count_of (get acc day) in
      ground (
        arith,
        get-put acc day d 0,
        get-put (put acc day 0) day d (n + job.total),
        get-put acc day d (n + job.total),
        ==_iff day d,
      )

  add_to_day-sum :
      (acc : List (String × ℕ)) (job : JobData)
      → sum_by (λ v. v) (values (add_to_day day_of acc job))
        ≡ sum_by (λ v. v) (values acc) + job.total
  unfolding add_to_day
  add_to_day-sum acc job =
      let day = day_of job.date in
      let n = count_of (get acc day) in
      ground (
        arith,
        get-put acc day day 0,
        ==_iff day day,
        sum-put acc day 0,
        sum-put (put acc day 0) day (n + job.total),
        sum-put acc day (n + job.total),
      )

  add_to_day-Distinct :
      (acc : List (String × ℕ)) (job : JobData)
      → Distinct (keys acc)
      → Distinct (keys (add_to_day day_of acc job))
  unfolding add_to_day
  add_to_day-Distinct acc job h =
      let day = day_of job.date in
      let reset = keys-put-Distinct acc day 0 h in
      elim (Option-cases (get acc day)) [
        | inl missing ↦
            rw (missing, add_to_day) (keys-put-Distinct (put acc day 0) day (0 + job.total) reset)
        | inr (n, there) ↦ elim (Bool-cases (eqb n 0)) [
          | inl zero_yet ↦
              rw (there, add_to_day, zero_yet)
                (keys-put-Distinct (put acc day 0) day (n + job.total) reset)
          | inr more ↦ rw (there, add_to_day, more) (keys-put-Distinct acc day (n + job.total) h)
        ]
      ]

  -- The executions of the jobs of the day `d`.
  pub on_day : String → List JobData → ℕ
  on_day d jobs = sum_by (λ job. if day_of job.date == d then job.total else 0) jobs

  by_day :
      (acc : List (String × ℕ)) (jobs : List JobData) (d : String)
      → count_of (get (foldl (add_to_day day_of) acc jobs) d) ≡ count_of (get acc d) + on_day d jobs
  unfolding on_day sum_by
  by_day acc [] d = omega arith
  by_day acc (job ∷ jobs) d =
      omega (arith, by_day (add_to_day day_of acc job) jobs d, add_to_day-count acc job d)

  in_all :
      (acc : List (String × ℕ)) (jobs : List JobData)
      → sum_by (λ v. v) (values (foldl (add_to_day day_of) acc jobs))
        ≡ sum_by (λ v. v) (values acc) + sum_by (λ (j : JobData). j.total) jobs
  unfolding sum_by
  in_all acc [] = omega arith
  in_all acc (job ∷ jobs) =
      omega (arith, in_all (add_to_day day_of acc job) jobs, add_to_day-sum acc job)

  days_once :
      (acc : List (String × ℕ)) (jobs : List JobData)
      → Distinct (keys acc)
      → Distinct (keys (foldl (add_to_day day_of) acc jobs))
  days_once acc [] h = h
  days_once acc (job ∷ jobs) h =
      days_once (add_to_day day_of acc job) jobs (add_to_day-Distinct acc job h)

-- Each day has one entry in the aggregated data; the entry counts all executions of the jobs of
-- that day, and a day with no entry has none; and the entries together count every execution once.
totals_by_day_lem :
    (day_of : String → String) (jobs : List JobData) (d : String)
    → Distinct (keys (totals_by_day day_of jobs))
      × (count_of (get (totals_by_day day_of jobs) d) ≡ on_day day_of d jobs)
      × (sum_by (λ v. v) (values (totals_by_day day_of jobs))
          ≡ sum_by (λ (j : JobData). j.total) jobs)
unfolding totals_by_day get sum_by
totals_by_day_lem day_of jobs d = (
  days_once day_of [] jobs tt,
  by_day day_of [] jobs d ∙ zero-add _,
  in_all day_of [] jobs ∙ zero-add _,
)
