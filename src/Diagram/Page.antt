-- ===== src/Diagram/Page.antt =====
-- `dkron/ui/src/jobs/JobDependencyDiagram.tsx`, lines 327 to 497: the component
-- `JobDependencyDiagram`, its state and what it shows.
pub mod Bounds
pub mod Panels
use phan_tan_dkron_giuaky.Common.{
  ℕ, ◌+◌, ◌*◌, max, ◌≡◌, true, false, Bool, not, ◌&&◌, Option, some, none, List, [], ◌∷◌, ◌++◌, map,
  String, ℤ, pos, ◌+ℤ◌, leb_ℤ, if◌then◌else◌, leb, length, Element, Attr, el, text, prop, on, str,
  num, kids, said, box, shown_if, all_of, each, Elements, ◌>>=◌,
}
use phan_tan_dkron_giuaky.Diagram.Defs.{
  Job, DependencyNode, DependencyEdge, node_width, node_height,
}
use phan_tan_dkron_giuaky.Diagram.Build.{Graph, build_dependency_graph}
use phan_tan_dkron_giuaky.Diagram.View.{Action, Curve, diagram_node, diagram_edge}

-- `useState` of the component
pub record State : Type 0 where
  pub all_jobs : List Job
  pub loading : Bool
  pub error : Option String

abbrev pub initial : State
initial = record { all_jobs = []; loading = true; error = none }

-- What happens in `fetchJobs`: it starts, and the list of jobs arrives or the request fails. The
-- `finally` block follows each of the two.
pub data Event : Type 0 where
  fetch_started : Event
  jobs_arrived : List Job → Event
  fetch_failed : Event

unfoldable pub react : State → Event → State
react s fetch_started = record s { loading = true }
react s (jobs_arrived jobs) = record { all_jobs = jobs; loading = false; error = none }
react s fetch_failed = record s { loading = false; error = some "Failed to load job dependencies" }

-- `useMemo`: no diagram without a record or a job. `none` where the search runs out of fuel.
unfoldable pub diagram_of : Option Job → List Job → Option Graph
diagram_of none jobs = some (record { nodes = []; edges = [] })
diagram_of (some current) [] = some (record { nodes = []; edges = [] })
diagram_of (some current) (j ∷ jobs) = build_dependency_graph current (j ∷ jobs)

abbrev pub max_ℤ : ℤ → ℤ → ℤ
max_ℤ a b = if leb_ℤ a b then b else a

-- `Math.max(...nodes.map((n) => n.x + NODE_WIDTH), 300)`
unfoldable pub max_x : List DependencyNode → ℕ
max_x [] = 300
max_x (n ∷ ns) = max (n.x + node_width) (max_x ns)

-- `Math.max(...nodes.map((n) => n.y + NODE_HEIGHT + 30), 150)`
unfoldable pub max_y : List DependencyNode → ℤ
max_y [] = pos 150
max_y (n ∷ ns) = max_ℤ (n.y +ℤ pos node_height +ℤ pos 30) (max_y ns)

abbrev pub svg_padding : ℕ
svg_padding = 40

unfoldable pub svg_width : List DependencyNode → ℕ
svg_width nodes = max_x nodes + svg_padding * 2

unfoldable pub svg_height : List DependencyNode → ℤ
svg_height nodes = max_y nodes +ℤ pos svg_padding

-- What stands below the header of the card.
pub data Panel : Type 0 where
  spinner : Panel
  failure : String → Panel
  no_dependencies : Panel
  diagram : ℕ → ℤ → List Curve → List (Element (Option Action)) → Panel

-- `nodes.length <= 1`
unfoldable pub has_no_dependencies : Graph → Bool
has_no_dependencies g = leb (length g.nodes) 1

abbrev panel_if : Bool → Panel → List Panel
panel_if b p = if b then p ∷ [] else []

-- `!error`: the only text that `setError` is given is not empty.
abbrev no_error : Option String → Bool
no_error none = true
no_error (some e) = false

unfoldable pub panels : State → Graph → List Panel
panels s g =
    panel_if s.loading spinner
    ++ (elim s.error [ none ↦ [] | some e ↦ failure e ∷ [] ]
        ++ (panel_if (not s.loading && no_error s.error && has_no_dependencies g) no_dependencies
            ++ panel_if (not s.loading && no_error s.error && not (has_no_dependencies g)) (
                diagram (svg_width g.nodes) (svg_height g.nodes) (map diagram_edge g.edges)
                  (map diagram_node g.nodes))))

-- The component: nothing without a record, else the card with its panels. The outer `none` is for
-- the fuel.
unfoldable pub render : Option Job → State → Option (List Panel)
render none s = some []
render (some current) s = do g ← diagram_of (some current) s.all_jobs; some (panels s g)
