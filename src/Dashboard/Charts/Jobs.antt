-- ===== src/Dashboard/Charts/Jobs.antt =====
-- `JobChart` of `dkron/ui/src/dashboard/JobChart.tsx`: the card with the chart, as a tree of elements.
use phan_tan_dkron_giuaky.Common.{
  ℕ, Option, some, none, List, [], ◌∷◌, String, pos, Element, Attr, el, prop, on, kids, box, leaf,
  is, num, decimal, nums,
}
use phan_tan_dkron_giuaky.Dashboard.Charts.{JobData, TotalByDay, aggregate_jobs_by_hour}

-- What the chart shows: the points that it gets, and the elements. A function among the properties
-- writes a number.
pub record JobChartView : Type 0 where
  pub points : List TotalByDay
  pub card : Element (ℕ → String)

-- How the language writes a date and an amount of US dollars; the day and the time of a date; the day
-- after the one a month before the page was loaded, and now.
pub record Calendar : Type 0 where
  pub to_locale_date : ℕ → String
  pub in_dollars : ℕ → String
  pub day_of : String → String
  pub time_of : String → ℕ
  pub first_day : ℕ
  pub now : ℕ

unfoldable pub gradient_stop : String → Attr (ℕ → String) → Element (ℕ → String)
gradient_stop offset opacity =
    leaf "stop" (is "offset" offset ∷ is "stopColor" "#8884d8" ∷ opacity ∷ [])

unfoldable pub gradient : Element (ℕ → String)
unfolding gradient_stop
gradient = box "defs" (
    el "linearGradient"
      (is "id" "colorUv" ∷ is "x1" "0" ∷ is "y1" "0" ∷ is "x2" "0" ∷ is "y2" "1" ∷ [])
      (kids (
        gradient_stop "5%" (prop "stopOpacity" (decimal "0.8"))
        ∷ gradient_stop "95%" (prop "stopOpacity" (num (pos 0)))
        ∷ []))
    ∷ [])

module _ (c : Calendar) where
  open c use {to_locale_date, in_dollars, day_of, time_of, first_day, now}

  -- `dateFormatter`
  unfoldable pub date_formatter : ℕ → String
  date_formatter date = to_locale_date date

  unfoldable pub area_chart : List (Element (ℕ → String))
  unfolding gradient date_formatter
  area_chart =
      gradient
      ∷ leaf "XAxis" (
          is "dataKey" "date"
          ∷ is "name" "Date"
          ∷ is "type" "number"
          ∷ is "scale" "time"
          ∷ prop "domain" (nums (first_day ∷ now ∷ []))
          ∷ on "tickFormatter" date_formatter
          ∷ [])
      ∷ leaf "YAxis" (is "dataKey" "total" ∷ is "name" "Revenue" ∷ is "unit" "€" ∷ [])
      ∷ leaf "CartesianGrid" (is "strokeDasharray" "3 3" ∷ [])
      ∷ leaf "Tooltip" (
          is "cursor.strokeDasharray" "3 3"
          ∷ on "formatter" in_dollars
          ∷ on "labelFormatter" date_formatter
          ∷ [])
      ∷ leaf "Area" (
          is "type" "monotone"
          ∷ is "dataKey" "total"
          ∷ is "stroke" "#8884d8"
          ∷ prop "strokeWidth" (num (pos 2))
          ∷ is "fill" "url(#colorUv)"
          ∷ [])
      ∷ []

  -- `JobChart`: nothing while there are no jobs. The points are the `data` of the chart.
  unfoldable pub job_chart : Option (List JobData) → Option JobChartView
  unfolding area_chart aggregate_jobs_by_hour
  job_chart none = none
  job_chart (some jobs) = some (record {
    points = aggregate_jobs_by_hour day_of time_of jobs;
    card = box "Card" (
        leaf "CardHeader" (is "title" "Job Executions" ∷ [])
        ∷ box "CardContent" (
            el "div" (is "width" "100%" ∷ prop "height" (num (pos 300)) ∷ [])
              (kids (box "ResponsiveContainer" (box "AreaChart" area_chart ∷ []) ∷ []))
            ∷ [])
        ∷ []);
  })
