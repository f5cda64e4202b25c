-- ===== src/Dashboard/Outcomes.antt =====
-- The effect of `dkron/ui/src/dashboard/Dashboard.tsx` together with `AnalyticsStats.tsx`, which gets
-- its state.
use phan_tan_dkron_giuaky.Common.{
  Bool-cases, inl, inr, ◌≡◌, refl, ap, ◌∙◌, Bool, true, Option, some, none, [], ◌∷◌, String,
  if◌then◌else◌,
}
use phan_tan_dkron_giuaky.Diagram.Defs.{or_text, truthy}
use phan_tan_dkron_giuaky.Session.{given}
use phan_tan_dkron_giuaky.Dashboard.Stats.{
  Numbers, AnalyticsData, Panel, spinner, warning, no_data, metrics, panels, metric_items,
  table_body, node_entries,
}
use phan_tan_dkron_giuaky.Dashboard.Stats.Panels.{panel_for, panels_one}
use phan_tan_dkron_giuaky.Dashboard.Analytics.{
  message_of, Outcome, fetched, rejected, Phase, waiting, answered, finished, State, mounted, Run,
}
use phan_tan_dkron_giuaky.Dashboard.Analytics.Laws.{Shows, Run-mounted-Shows}

module _ (n : Numbers) where
  -- The panel that the user is to see once the request has ended so.
  abbrev pub panel_of : Outcome (AnalyticsData n) → Panel n
  panel_of (fetched none) = no_data
  panel_of (fetched (some a)) =
      metrics (metric_items n a) (table_body n (node_entries n a.executions_by_node))
  panel_of (rejected t) = if given (some (message_of t)) then warning (message_of t) else no_data

  abbrev pub panel_at : Phase (AnalyticsData n) → Panel n
  panel_at waiting = spinner
  panel_at (answered o) = spinner
  panel_at (finished o) = panel_of o

  Shows-panel :
      (p : Phase (AnalyticsData n)) (a : Option (AnalyticsData n)) (l : Bool) (e : Option String)
      → Shows p a l e
      → panel_for n a l e ≡ panel_at p
  unfolding panel_for given or_text
  Shows-panel waiting a l e (loads, empty, fine) = rw loads refl
  Shows-panel (answered o) a l e (loads, holds) = rw loads refl
  Shows-panel (finished (fetched none)) a l e (ended, (shown, fine)) = rw (ended, shown, fine) refl
  Shows-panel (finished (fetched (some d))) a l e (ended, (shown, fine)) =
      rw (ended, shown, fine) refl
  Shows-panel (finished (rejected t)) a l e (ended, (shown, failed)) =
      rw (ended, shown, failed)
        (elim (Bool-cases (truthy (message_of t))) [
          | inl said ↦ rw said refl
          | inr silent ↦ rw silent refl
        ])

  -- In every state that a mounted dashboard comes to, the card of the analytics shows one panel: a
  -- spinner until the promise of the request is settled; then, after an answer, the metrics and the
  -- table of what was fetched, or the note that there is no data where the answer has no JSON; and after
  -- a failure the warning with its message, or the same note where the message is empty.
  pub Run-mounted-panels :
      (s : State (AnalyticsData n))
      → Run mounted s
      → s.active ≡ true
      → panels n s.analytics s.loading s.error ≡ panel_at s.phase ∷ []
  Run-mounted-panels s r here =
      panels_one n s.analytics s.loading s.error
      ∙ ap (λ p. p ∷ [])
          (Shows-panel s.phase s.analytics s.loading s.error (Run-mounted-Shows s r here))
