-- ===== src/Dashboard/Home.antt =====
-- `dkron/ui/src/dashboard/Dashboard.tsx` and `CardWithIcon.tsx`, with `Leader.tsx`: the dashboard as a
-- tree of elements, without the styling but for the colours of the cards.
use phan_tan_dkron_giuaky.Common.{
  Bool, true, false, Option, List, [], ◌∷◌, String, pos, Element, Elements, Attr, el, prop, kids,
  cons, box, leaf, bare, is, said, num, bool, nothing,
}
use phan_tan_dkron_giuaky.Dashboard.Stats.{
  Numbers, AnalyticsData, StatCard, stat_cards, card_text, panels, Panel,
}
use phan_tan_dkron_giuaky.Dashboard.Charts.{View}

-- What the card gets beside its texts: the icon, and the colour.
pub record Look : Type 0 where
  pub icon : String
  pub color : String

unfoldable pub looks : List Look
looks =
    record { icon = "DeviceHub"; color = "#1a365d" }
    ∷ record { icon = "UpdateIcon"; color = "#3182ce" }
    ∷ record { icon = "AssessmentIcon"; color = "#805ad5" }
    ∷ record { icon = "CheckCircleIcon"; color = "#38a169" }
    ∷ record { icon = "ErrorIcon"; color = "#e53e3e" }
    ∷ record { icon = "SpeedIcon"; color = "#d69e2e" }
    ∷ []

-- `alpha(color, opacity)`, with the opacity as it is written, is the theme's.
module _ {A : Type 0} (n : Numbers) (alpha : String → String → String) where
  unfoldable pub decoration : String → String → Element A
  decoration color opacity = leaf "Box" (is "backgroundColor" (alpha color opacity) ∷ [])

  unfoldable pub card_icon : Look → Element A
  card_icon look =
      el "Box" (is "backgroundColor" (alpha look.color "0.1") ∷ is "color" look.color ∷ [])
        (kids (bare look.icon ∷ []))

  unfoldable pub card_content : StatCard n → Element A
  unfolding card_text
  card_content card = box "Box" (
      el "Typography" (is "variant" "h4" ∷ is "component" "div" ∷ [])
        (kids (said (card_text n card) ∷ []))
      ∷ el "Typography" (is "variant" "body2" ∷ []) (kids (said card.title ∷ []))
      ∷ [])

  -- `CardWithIcon`, with no children of its own
  unfoldable pub card_with_icon : Look → StatCard n → Element A
  unfolding decoration card_icon card_content
  card_with_icon look card = box "Card" (
      el "Link" (is "to" card.to ∷ []) (
        kids (
          box "Box" (
            decoration look.color "0.1"
            ∷ decoration look.color "0.05"
            ∷ card_icon look
            ∷ card_content card
            ∷ [])
          ∷ []))
      ∷ [])

  unfoldable pub cards : List Look → List (StatCard n) → Elements A
  unfolding card_with_icon
  cards [] cs = kids []
  cards (look ∷ rest) [] = kids []
  cards (look ∷ rest) (card ∷ cs) = cons (card_with_icon look card) (cards rest cs)

  unfoldable pub header : Element A
  header = box "Box" (
      el "Typography" (is "variant" "h4" ∷ is "component" "h1" ∷ []) (kids (said "Dashboard" ∷ []))
      ∷ el "Typography" (is "variant" "body1" ∷ [])
          (kids (said "Monitor your distributed job scheduler at a glance" ∷ []))
      ∷ [])

  -- `fakeProps`; `options` is an empty object
  unfoldable pub fake_props : List (Attr A)
  fake_props =
      is "basePath" "/members"
      ∷ prop "count" (num (pos 10))
      ∷ prop "hasCreate" (bool false)
      ∷ prop "hasEdit" (bool false)
      ∷ prop "hasList" (bool true)
      ∷ prop "hasShow" (bool false)
      ∷ is "location.pathname" "/"
      ∷ is "location.search" ""
      ∷ is "location.hash" ""
      ∷ is "match.path" "/"
      ∷ is "match.url" "/"
      ∷ prop "match.isExact" (bool true)
      ∷ prop "permissions" nothing
      ∷ is "resource" "members"
      ∷ []

  unfoldable pub member_field : String → Element A
  member_field source = leaf "TextField" (is "source" source ∷ prop "sortable" (bool false) ∷ [])

  -- The list of members, none of whose rows can be selected
  unfoldable pub member_list : Element A
  unfolding fake_props member_field
  member_list = el "List" fake_props (
      kids (
        el "Datagrid" (prop "isRowSelectable" (bool false) ∷ []) (
          kids (
            member_field "Name"
            ∷ member_field "Addr"
            ∷ member_field "Port"
            ∷ leaf "TextField"
                (is "label" "Status" ∷ is "source" "statusText" ∷ prop "sortable" (bool false) ∷ [])
            ∷ bare "TagsField"
            ∷ []))
        ∷ []))

  unfoldable pub nodes_section : Element A
  unfolding member_list
  nodes_section = box "Card" (
      box "Box" (
        box "Box" (bare "DnsIcon" ∷ [])
        ∷ box "Box" (
            el "Typography" (is "variant" "h6" ∷ []) (kids (said "Cluster Nodes" ∷ []))
            ∷ el "Typography" (is "variant" "body2" ∷ [])
                (kids (said "Active members in your Dkron cluster" ∷ []))
            ∷ [])
        ∷ [])
      ∷ box "CardContent" (member_list ∷ [])
      ∷ [])

  -- `Dashboard`, with the elements that `AnalyticsStats` makes of its panels and
  -- `ExecutionStatsChart` of its view as `stats_element` and `chart_element`
  unfoldable pub dashboard :
      (List (Panel n) → Element A)
      → (View → Element A)
      → Option (AnalyticsData n)
      → Bool
      → Option String
      → View
      → (Option String × Option String × Option String)
      → Element A
  unfolding header cards looks nodes_section stat_cards panels
  dashboard stats_element chart_element analytics loading error stats_view (leader, jobs, failed) =
      box "Box" (
        header
        ∷ el "Box" [] (cards looks (stat_cards n analytics leader jobs failed))
        ∷ box "Box" (stats_element (panels n analytics loading error) ∷ [])
        ∷ box "Box" (chart_element stats_view ∷ [])
        ∷ nodes_section
        ∷ [])
