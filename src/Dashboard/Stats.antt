-- ===== src/Dashboard/Stats.antt =====
-- `dkron/ui/src/dashboard/AnalyticsStats.tsx`, and the cards of `Dashboard.tsx` with
-- `CardWithIcon.tsx`: the numbers as texts, and the panel of the analytics. How the language writes
-- a number or a date and how it compares two texts are arguments.
pub mod Panels
use Prim.Native.String.{◌++◌ as glue}
use phan_tan_dkron_giuaky.Common.{
  ℕ, ◌≡◌, Bool, true, false, not, ◌&&◌, Option, some, none, List, [], ◌∷◌, ◌++◌, String,
  if◌then◌else◌,
}
use phan_tan_dkron_giuaky.Diagram.Defs.{or_text}
use phan_tan_dkron_giuaky.Session.{given}

-- Numbers and how they are written: `toLocaleString()`, `toFixed(digits)`, and the hundredfold.
pub record Numbers : Type 1 where
  pub Num : Type 0
  pub to_locale : Num → String
  pub to_fixed : ℕ → Num → String
  pub hundredfold : Num → Num
  -- `new Date(value).toLocaleString()`
  pub date_to_locale : String → String
  -- `left.localeCompare(right) <= 0`
  pub locale_le : String → String → Bool

abbrev pub is_none {ℓ} : {A : Type ℓ} → Option A → Bool
is_none none = true
is_none (some a) = false

module _ (n : Numbers) where
  open n use {Num, to_locale, to_fixed, hundredfold, date_to_locale, locale_le}

  pub record NodeAnalytics : Type 0 where
    pub total_executions : Option Num
    pub successful_executions : Option Num
    pub failed_executions : Option Num
    pub average_duration_sec : Option Num

  pub record AnalyticsData : Type 0 where
    pub total_jobs : Option Num
    pub total_executions : Option Num
    pub successful_executions : Option Num
    pub failed_executions : Option Num
    pub success_rate : Option Num
    pub failure_rate : Option Num
    pub average_duration_sec : Option Num
    pub min_duration_sec : Option Num
    pub max_duration_sec : Option Num
    pub duration_sample_count : Option Num
    pub last_execution_at : Option String
    pub executions_by_node : Option (List (String × NodeAnalytics))

  -- `none` is a value that is not a number.
  unfoldable pub format_integer : Option Num → String → String
  format_integer none fallback = fallback
  format_integer (some v) fallback = to_locale v

  unfoldable pub format_percent : Option Num → String
  format_percent none = "0.0%"
  format_percent (some v) = glue (to_fixed 1 (hundredfold v)) "%"

  -- `formatSeconds` of `AnalyticsStats.tsx`
  unfoldable pub format_seconds : Option Num → String
  format_seconds none = "0.000s"
  format_seconds (some v) = glue (to_fixed 3 v) "s"

  -- `formatSeconds` of `Dashboard.tsx`
  unfoldable pub format_seconds_short : Option Num → String
  format_seconds_short none = "0.00s"
  format_seconds_short (some v) = glue (to_fixed 2 v) "s"

  unfoldable pub format_date_time : Option String → String
  unfolding given
  format_date_time value = elim value [
    | none ↦ "No execution recorded"
    | some v ↦ if given (some v) then date_to_locale v else "No execution recorded"
  ]

  unfoldable pub metric_items : AnalyticsData → List (String × String)
  metric_items stats =
      ("Successful executions", format_integer stats.successful_executions "0")
      ∷ ("Failed executions", format_integer stats.failed_executions "0")
      ∷ ("Failure rate", format_percent stats.failure_rate)
      ∷ ("Duration samples", format_integer stats.duration_sample_count "0")
      ∷ ("Minimum duration", format_seconds stats.min_duration_sec)
      ∷ ("Maximum duration", format_seconds stats.max_duration_sec)
      ∷ ("Last execution", format_date_time stats.last_execution_at)
      ∷ []

  -- `Array.prototype.sort` by the first components
  unfoldable pub insert_node :
      String × NodeAnalytics → List (String × NodeAnalytics) → List (String × NodeAnalytics)
  insert_node e [] = e ∷ []
  insert_node e (f ∷ es) = if locale_le e.0 f.0 then e ∷ f ∷ es else f ∷ insert_node e es

  unfoldable pub sort_nodes : List (String × NodeAnalytics) → List (String × NodeAnalytics)
  unfolding insert_node
  sort_nodes [] = []
  sort_nodes (e ∷ es) = insert_node e (sort_nodes es)

  -- `Object.entries(nodes || {}).sort(…)`
  unfoldable pub node_entries :
      Option (List (String × NodeAnalytics)) → List (String × NodeAnalytics)
  unfolding sort_nodes
  node_entries none = []
  node_entries (some nodes) = sort_nodes nodes

  -- A row of the table of nodes, as its cells.
  unfoldable pub node_row : String × NodeAnalytics → List String
  node_row entry =
      entry.0
      ∷ format_integer entry.1.total_executions "0"
      ∷ format_integer entry.1.successful_executions "0"
      ∷ format_integer entry.1.failed_executions "0"
      ∷ format_seconds entry.1.average_duration_sec
      ∷ []

  unfoldable pub node_rows : List (String × NodeAnalytics) → List (List String)
  unfolding node_row
  node_rows [] = []
  node_rows (e ∷ es) = node_row e ∷ node_rows es

  -- The table's body: a row for each node, and one that says so if there is none.
  unfoldable pub table_body : List (String × NodeAnalytics) → List (List String)
  unfolding node_rows
  table_body [] = ("No node-level execution data is available." ∷ []) ∷ []
  table_body (e ∷ es) = node_rows (e ∷ es)

  -- What stands in the card: a spinner, the warning with the error's message, the note that there is
  -- no data, or the metrics over the table of nodes.
  pub data Panel : Type 0 where
    spinner : Panel
    warning : String → Panel
    no_data : Panel
    metrics : List (String × String) → List (List String) → Panel

  abbrev pub panel_if : Bool → Panel → List Panel
  panel_if b p = if b then p ∷ [] else []

  -- `!loading && !error && stats && …`
  unfoldable pub metrics_panel : Option AnalyticsData → Bool → Option String → List Panel
  unfolding given metric_items table_body node_entries
  metrics_panel none loading error = []
  metrics_panel (some stats) loading error =
      panel_if (not loading && not (given error))
        (metrics (metric_items stats) (table_body (node_entries stats.executions_by_node)))

  -- The panels of `AnalyticsStats`, in order.
  unfoldable pub panels : Option AnalyticsData → Bool → Option String → List Panel
  unfolding given metrics_panel
  panels stats loading error =
      panel_if loading spinner
      ++ (panel_if (not loading && given error) (warning (or_text error ""))
          ++ (panel_if (not loading && not (given error) && is_none stats) no_data
              ++ metrics_panel stats loading error))

  -- One of the cards at the top of the dashboard.
  pub record StatCard : Type 0 where
    pub to : String
    pub title : String
    pub subtitle : Option String

  -- `subtitle || '0'` of `CardWithIcon`
  unfoldable pub card_text : StatCard → String
  card_text c = or_text c.subtitle "0"

  -- `analytics?.field`
  abbrev field_of : (AnalyticsData → Option Num) → Option AnalyticsData → Option Num
  field_of f none = none
  field_of f (some a) = f a

  -- The cards, from the analytics and what the server wrote into the page.
  unfoldable pub stat_cards :
      Option AnalyticsData → Option String → Option String → Option String → List StatCard
  unfolding format_integer format_percent format_seconds_short
  stat_cards analytics leader total_jobs failed_jobs =
      record { to = "/jobs"; title = "Leader"; subtitle = some (or_text leader "devel") }
      ∷ record {
        to = "/jobs";
        title = "Total Jobs";
        subtitle =
            some (format_integer (field_of (λ a. a.total_jobs) analytics) (or_text total_jobs "0"));
      }
      ∷ record {
        to = "/executions";
        title = "Total Executions";
        subtitle = some (format_integer (field_of (λ a. a.total_executions) analytics) "0");
      }
      ∷ record {
        to = "/executions";
        title = "Success Rate";
        subtitle = some (format_percent (field_of (λ a. a.success_rate) analytics));
      }
      ∷ record {
        to = "/executions";
        title = "Failed Executions";
        subtitle = some (
            format_integer (field_of (λ a. a.failed_executions) analytics)
              (or_text failed_jobs "0"));
      }
      ∷ record {
        to = "/executions";
        title = "Avg Duration";
        subtitle = some (format_seconds_short (field_of (λ a. a.average_duration_sec) analytics));
      }
      ∷ []
