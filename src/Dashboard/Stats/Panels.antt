-- ===== src/Dashboard/Stats/Panels.antt =====
-- The panel of the analytics: always one, and its table has every node once, in order.
use mathlib.Core.List.{Perm}
use mathlib.Core.List.Perm
use phan_tan_dkron_giuaky.Common.{
  ◌≡◌, Bool, true, ◌⊎◌, inl, inr, Option, some, none, List, [], ◌∷◌, String, if◌then◌else◌, All,
  All_of_all, Pairs, Bool-cases, arith,
}
use phan_tan_dkron_giuaky.Diagram.Defs.{or_text}
use phan_tan_dkron_giuaky.Session.{given}
use phan_tan_dkron_giuaky.Dashboard.Stats.{
  Numbers, NodeAnalytics, AnalyticsData, Panel, spinner, warning, no_data, metrics, panels,
  metrics_panel, metric_items, table_body, node_entries, insert_node, sort_nodes,
}

module _ (n : Numbers) where
  -- The one panel.
  unfoldable pub panel_for : Option (AnalyticsData n) → Bool → Option String → Panel n
  panel_for stats loading error =
      if loading then spinner else if given error then warning (or_text error "") else elim stats [
        | none ↦ no_data
        | some a ↦ metrics (metric_items n a) (table_body n (node_entries n a.executions_by_node))
      ]

  -- For each data, loading flag and error the card shows exactly one panel: the spinner while it
  -- loads; else the warning with the error's message, if there is one that is not empty; else the
  -- note that there is no data, or the metrics with the table.
  pub panels_one :
      (stats : Option (AnalyticsData n)) (loading : Bool) (error : Option String)
      → panels n stats loading error ≡ panel_for stats loading error ∷ []
  unfolding panels metrics_panel panel_for
  panels_one none loading error = ground arith
  panels_one (some a) loading error = ground arith

  abbrev Entry : Type 0
  Entry = String × NodeAnalytics n

  insert_node-perm : (e : Entry) (es : List Entry) → Perm (insert_node n e es) (e ∷ es)
  unfolding insert_node
  insert_node-perm e [] = Perm.refl (e ∷ [])
  insert_node-perm e (f ∷ es) = elim (Bool-cases (n.locale_le e.0 f.0)) [
    | inl le ↦ rw (le, insert_node) (Perm.refl (e ∷ f ∷ es))
    | inr gt ↦
        rw (gt, insert_node) (Perm.trans (Perm.cons f (insert_node-perm e es)) (Perm.swap e f es))
  ]

  sort_nodes-perm : (es : List Entry) → Perm (sort_nodes n es) es
  unfolding sort_nodes
  sort_nodes-perm [] = Perm.refl []
  sort_nodes-perm (e ∷ es) =
      Perm.trans (insert_node-perm e (sort_nodes n es)) (Perm.cons e (sort_nodes-perm es))

  abbrev pub InOrder : Entry → Entry → Type 0
  InOrder e f = n.locale_le e.0 f.0 ≡ true

  module _ (total : (a b : String) → (n.locale_le a b ≡ true) ⊎ (n.locale_le b a ≡ true))
      (trans : (a b c : String)
        → n.locale_le a b ≡ true
        → n.locale_le b c ≡ true
        → n.locale_le a c ≡ true) where
    insert_node-All :
        (f e : Entry) (es : List Entry)
        → InOrder f e
        → All (InOrder f) es
        → All (InOrder f) (insert_node n e es)
    unfolding insert_node
    insert_node-All f e [] h k = (h, tt)
    insert_node-All f e (g ∷ es) h k = elim (Bool-cases (n.locale_le e.0 g.0)) [
      | inl le ↦ rw (le, insert_node) (h, k)
      | inr gt ↦ rw (gt, insert_node) (k.0, insert_node-All f e es h k.1)
    ]

    insert_node-Pairs :
        (e : Entry) (es : List Entry) → Pairs InOrder es → Pairs InOrder (insert_node n e es)
    unfolding insert_node
    insert_node-Pairs e [] h = (tt, tt)
    insert_node-Pairs e (g ∷ es) h = elim (Bool-cases (n.locale_le e.0 g.0)) [
      | inl le ↦
          rw (le, insert_node)
            ((le, All_of_all (InOrder g) (InOrder e) es (λ x k. trans e.0 g.0 x.0 le k) h.0), h)
      | inr gt ↦
          rw (gt, insert_node)
            (
              insert_node-All g e es (elim (total e.0 g.0) [ inl le ↦ cc | inr ge ↦ ge ]) h.0,
              insert_node-Pairs e es h.1,
            )
    ]

    pub sort_nodes-Pairs : (es : List Entry) → Pairs InOrder (sort_nodes n es)
    unfolding sort_nodes
    sort_nodes-Pairs [] = tt
    sort_nodes-Pairs (e ∷ es) = insert_node-Pairs e (sort_nodes n es) (sort_nodes-Pairs es)

-- Where the language's comparison of texts is a total and transitive order, the table lists each node
-- of the answer exactly as often as the answer has it, and in the order of the names.
pub node_entries_lem :
    (n : Numbers)
    → ((a b : String) → (n.locale_le a b ≡ true) ⊎ (n.locale_le b a ≡ true))
    → ((a b c : String) → n.locale_le a b ≡ true → n.locale_le b c ≡ true → n.locale_le a c ≡ true)
    → (nodes : List (String × NodeAnalytics n))
    → Perm (node_entries n (some nodes)) nodes × Pairs (InOrder n) (node_entries n (some nodes))
unfolding node_entries
node_entries_lem n total trans nodes =
    (sort_nodes-perm n nodes, sort_nodes-Pairs n total trans nodes)
