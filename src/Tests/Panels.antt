-- ===== src/Tests/Panels.antt =====
-- The dashboard.
use mathlib.Core.List.{Perm}
use phan_tan_dkron_giuaky.Common.{
  ℕ, ◌≡◌, refl, inl, true, false, some, none, List, [], ◌∷◌, Pairs, string_eq,
}
use phan_tan_dkron_giuaky.Dashboard.Analytics
use phan_tan_dkron_giuaky.Dashboard.Analytics.{
  error_object, mounted, on_error, on_finally, on_unmount, on_json, fetched, rejected, answered,
  finished,
}
use phan_tan_dkron_giuaky.Dashboard.Analytics.Laws.{Shows, SameView, Run-mounted-Shows, Run-gone}
use phan_tan_dkron_giuaky.Dashboard.Charts.{ExecutionStat, JobData}
use phan_tan_dkron_giuaky.Dashboard.Outcomes.{panel_at, Run-mounted-panels}
use phan_tan_dkron_giuaky.Dashboard.Stats.{
  Numbers, NodeAnalytics, AnalyticsData, node_entries, panels,
}
use phan_tan_dkron_giuaky.Dashboard.Stats.Panels.{InOrder, node_entries_lem}

-- The request fails, and the promise is settled.
abbrev failed : Analytics.State ℕ
failed = on_finally (on_error mounted (error_object "down")) (rejected (error_object "down"))

failed-Run : Analytics.Run mounted failed
unfolding on_error
failed-Run =
    Analytics.Run.next
      (Analytics.Run.next Analytics.Run.here (Analytics.Step.failure (error_object "down") refl))
      (Analytics.Step.settled (rejected (error_object "down")) refl)

failed_active : failed.active ≡ true
unfolding on_error on_finally
failed_active = refl

Run-mounted-Shows_example : Shows failed.phase failed.analytics failed.loading failed.error
Run-mounted-Shows_example = Run-mounted-Shows failed failed-Run failed_active

-- The component is gone before the answer comes.
abbrev gone : Analytics.State ℕ
gone = on_unmount mounted

abbrev late : Analytics.State ℕ
late = on_json gone (some 7)

late-Run : Analytics.Run gone late
unfolding on_unmount
late-Run = Analytics.Run.next Analytics.Run.here (Analytics.Step.json (some 7) refl)

gone_inactive : gone.active ≡ false
unfolding on_unmount
gone_inactive = refl

Run-gone_example : SameView gone late
Run-gone_example = Run-gone gone late gone_inactive late-Run

abbrev stats : List ExecutionStat
stats =
    record { date = "2024-05-01"; success_count = 3; failed_count = 1 }
    ∷ record { date = "2024-05-02"; success_count = 2; failed_count = 0 }
    ∷ []

abbrev job_data : List JobData
job_data =
    record { date = "2024-05-01"; total = 3 }
    ∷ record { date = "2024-05-02"; total = 0 }
    ∷ record { date = "2024-05-01"; total = 4 }
    ∷ []

-- Numbers that are written in one way only, and texts that are all alike.
abbrev numbers : Numbers
numbers = record {
  Num = ℕ;
  to_locale = λ v. "n";
  to_fixed = λ digits v. "n";
  hundredfold = λ v. v;
  date_to_locale = λ d. d;
  locale_le = λ a b. true;
}

abbrev node : NodeAnalytics numbers
node = record {
  total_executions = some 3;
  successful_executions = some 2;
  failed_executions = some 1;
  average_duration_sec = none;
}

node_entries_lem_example :
    Perm
      (node_entries numbers (some (("n2", node) ∷ ("n1", node) ∷ [])))
      (("n2", node) ∷ ("n1", node) ∷ [])
    × Pairs (InOrder numbers) (node_entries numbers (some (("n2", node) ∷ ("n1", node) ∷ [])))
node_entries_lem_example =
    node_entries_lem numbers (λ a b. inl refl) (λ a b c h k. refl)
      (("n2", node) ∷ ("n1", node) ∷ [])

-- The answer has no JSON.
abbrev blank : Analytics.State (AnalyticsData numbers)
blank = on_finally (on_json mounted none) (fetched none)

blank-Run : Analytics.Run mounted blank
unfolding on_json
blank-Run =
    Analytics.Run.next (Analytics.Run.next Analytics.Run.here (Analytics.Step.json none refl))
      (Analytics.Step.settled (fetched none) refl)

blank_active : blank.active ≡ true
unfolding on_json on_finally
blank_active = refl

Run-mounted-panels_example :
    panels numbers blank.analytics blank.loading blank.error ≡ panel_at numbers blank.phase ∷ []
Run-mounted-panels_example = Run-mounted-panels numbers blank blank-Run blank_active
