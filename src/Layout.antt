-- ===== src/Layout.antt =====
-- `dkron/ui/src/layout/AppBar.tsx`, `ThemedLayout.tsx` and `Clock.tsx`, and `dkron/ui/src/App.tsx`: the
-- frame around the pages, without its styling, and what the program is made of.
use phan_tan_dkron_giuaky.Common.{
  ℕ, Bool, true, false, [], ◌∷◌, String, if◌then◌else◌, pos, Element, el, prop, num, kids, box,
  leaf, bare, is, said, slot,
}

-- The state of `Clock`: the time that it shows, and whether its timer runs. How a time is written
-- is an argument.
pub record Clock : Type 0 where
  pub date : ℕ
  pub running : Bool

-- The constructor at the time `now`, `componentDidMount`, a call of the timer's function at the time
-- `now`, and `componentWillUnmount`. A timer that was cleared calls nothing.
abbrev pub new_clock : ℕ → Clock
new_clock now = record { date = now; running = false }

unfoldable pub component_did_mount : Clock → Clock
component_did_mount c = record c { running = true }

unfoldable pub tick : ℕ → Clock → Clock
tick now c = if c.running then record c { date = now } else c

unfoldable pub component_will_unmount : Clock → Clock
component_will_unmount c = record c { running = false }

module _ {A : Type 0} where
  unfoldable pub render_clock : (ℕ → String) → Clock → Element A
  render_clock to_locale_time c = box "Box" (
      bare "AccessTimeIcon"
      ∷ el "Typography" (is "variant" "body2" ∷ []) (kids (said (to_locale_time c.date) ∷ []))
      ∷ [])

  -- A link of the user's menu.
  abbrev menu_item : String → String → String → Element A
  menu_item to text icon =
      slot "leftIcon" (bare icon) (leaf "MenuItemLink" (is "to" to ∷ is "primaryText" text ∷ []))

  unfoldable pub custom_user_menu : Element A
  custom_user_menu = box "UserMenu" (
      menu_item "https://dkron.io/docs/basics/getting-started" "Documentation" "BookIcon"
      ∷ menu_item "https://github.com/distribworks/dkron" "GitHub" "GitHubIcon"
      ∷ bare "Logout"
      ∷ [])

  unfoldable pub custom_app_bar : Element A
  unfolding custom_user_menu
  custom_app_bar = slot "userMenu" custom_user_menu (
      el "StyledAppBar" (prop "elevation" (num (pos 0)) ∷ []) (
        kids (
          box "Box" (
            el "Link" (is "to" "/" ∷ []) (
              kids (
                leaf "img"
                  (is "src" "logo" ∷ is "alt" "Dkron" ∷ is "className" "CustomAppBar-logo" ∷ [])
                ∷ []))
            ∷ [])
          ∷ leaf "Typography" (
              is "variant" "h6"
              ∷ is "color" "inherit"
              ∷ is "className" "CustomAppBar-title"
              ∷ is "id" "react-admin-title"
              ∷ [])
          ∷ leaf "span" (is "className" "CustomAppBar-spacer" ∷ [])
          ∷ box "Box" (bare "Clock" ∷ [])
          ∷ [])))

  unfoldable pub styled_sidebar : Element A
  styled_sidebar = leaf "CustomSidebar" (prop "size" (num (pos 220)) ∷ [])

  -- A component as a property stands as its name.
  unfoldable pub themed_layout : Element A
  themed_layout = leaf "Layout" (is "appBar" "AppBar" ∷ is "sidebar" "StyledSidebar" ∷ [])

  -- `App`: the provider of the login is there only where access control is on.
  unfoldable pub app : Bool → Element A
  app acl_enabled =
      el "Admin"
        (is "dashboard" "Dashboard"
          ∷ is "loginPage" "LoginPage"
          ∷ is "authProvider" (if acl_enabled then "authProvider" else "undefined")
          ∷ is "dataProvider" "dataProvider"
          ∷ is "layout" "Layout"
          ∷ is "theme" "lightTheme"
          ∷ [])
        (kids (
          leaf "Resource" (
            is "name" "jobs"
            ∷ is "list" "JobList"
            ∷ is "edit" "JobEdit"
            ∷ is "create" "JobCreate"
            ∷ is "show" "JobShow"
            ∷ is "icon" "JobIcon"
            ∷ [])
          ∷ leaf "Resource" (
              is "name" "busy"
              ∷ is "label" "Busy"
              ∷ is "list" "BusyList"
              ∷ is "icon" "PlayCircleOutlineIcon"
              ∷ [])
          ∷ leaf "Resource" (is "name" "executions" ∷ [])
          ∷ leaf "Resource" (is "name" "members" ∷ [])
          ∷ box "CustomRoutes"
              (slot "element" (bare "Settings") (leaf "Route" (is "path" "/settings" ∷ [])) ∷ [])
          ∷ []))
