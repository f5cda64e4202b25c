-- ===== src/Diagram/Page/Panels.antt =====
-- Which panels the component shows.
use phan_tan_dkron_giuaky.Common.{
  ◌<◌, ◌≡◌, ◌≢◌, refl, true, inl, some, Option, List, [], ◌∷◌, map, String, ◌∙◌, subst, has,
  has_key, length, leb, Distinct, ==_iff, string_eq, if◌then◌else◌, arith,
}
use phan_tan_dkron_giuaky.Diagram.Defs.{Job, DependencyNode}
use phan_tan_dkron_giuaky.Diagram.Relatives.Walk.{job_map}
use phan_tan_dkron_giuaky.Diagram.Layout.Nodes.{ids}
use phan_tan_dkron_giuaky.Diagram.Build.{Graph, build_dependency_graph}
use phan_tan_dkron_giuaky.Diagram.View.{diagram_edge, diagram_node}
use phan_tan_dkron_giuaky.Diagram.Build.Relatives.{Relative}
use phan_tan_dkron_giuaky.Diagram.Build.Correct.{
  build_dependency_graph_apart, build_dependency_graph_nodes_iff,
}
use phan_tan_dkron_giuaky.Diagram.Page.{
  State, jobs_arrived, react, render, panels, Panel, svg_width, svg_height, diagram,
  has_no_dependencies, no_dependencies, diagram_of,
}

-- Two different names among the ids make at least two nodes.
two_of :
    (ns : List DependencyNode) (a b : String)
    → a ≢ b
    → has (ids ns) a ≡ true
    → has (ids ns) b ≡ true
    → 1 < length ns
unfolding has
two_of [] a b ne h k = cc
two_of (n ∷ []) a b ne h k = absurd (ne (ground (arith, ==_iff n.id a, ==_iff n.id b)))
two_of (n ∷ m ∷ ns) a b ne h k = omega arith

-- With at most one node there is no relative but the current job.
one_of :
    (ns : List DependencyNode) (c : String)
    → ((a : String) → has (ids ns) a ≡ true → c ≡ a)
    → Distinct (ids ns)
    → leb (length ns) 1 ≡ true
unfolding has
one_of [] c only d = refl
one_of (n ∷ []) c only d = refl
one_of (n ∷ m ∷ ns) c only d =
    let first = only n.id (ground (arith, ==_iff n.id n.id)) in
    let second = only m.id (ground (arith, ==_iff m.id m.id)) in
    ground (arith, first, second, ==_iff m.id n.id, d.0)

-- The diagram panel of the graph.
abbrev pub picture : Graph → Panel
picture g =
    diagram (svg_width g.nodes) (svg_height g.nodes) (map diagram_edge g.edges)
      (map diagram_node g.nodes)

render_after_jobs :
    (current : Job) (jobs : List Job) (s : State) (g : Graph)
    → diagram_of (some current) jobs ≡ some g
    → render (some current) (react s (jobs_arrived jobs))
      ≡ some ((if has_no_dependencies g then no_dependencies else picture g) ∷ [])
unfolding render react panels
render_after_jobs current jobs s g built = ground arith

diagram_of_built :
    (current : Job) (jobs : List Job) (g : Graph) (a : String)
    → has_key (job_map jobs) a ≡ true
    → build_dependency_graph current jobs ≡ some g
    → diagram_of (some current) jobs ≡ some g
unfolding diagram_of job_map has_key has
diagram_of_built current [] g a known built = cc
diagram_of_built current (j ∷ jobs) g a known built = built

same_graph : {o : Option Graph} {g h : Graph} → o ≡ some g → o ≡ some h → h ≡ g
same_graph p q = cc

-- When a list of jobs arrives that knows the current job and a relative of it of another name, the
-- graph is built, and whatever happened before, the component shows the diagram of that graph and
-- nothing else.
pub render_diagram :
    (s : State) (current : Job) (jobs : List Job) (a : String)
    → has_key (job_map jobs) current.name ≡ true
    → has_key (job_map jobs) a ≡ true
    → current.name ≢ a
    → Relative (job_map jobs) current.name a
    → (g : Graph) × (build_dependency_graph current jobs ≡ some g)
      × (render (some current) (react s (jobs_arrived jobs)) ≡ some (picture g ∷ []))
unfolding has_no_dependencies
render_diagram s current jobs a known known_a other relative =
    let (g, built, self) = build_dependency_graph_nodes_iff current jobs current.name in
    let (h, built', near) = build_dependency_graph_nodes_iff current jobs a in
    let same = same_graph built built' in
    let two =
      two_of g.nodes current.name a other (self.1 (inl refl, known))
        (subst (λ (k : Graph). has (ids k.nodes) a ≡ true) same (near.1 (relative, known_a))) in
    (
      g,
      built,
      render_after_jobs current jobs s g (diagram_of_built current jobs g a known_a built)
          ∙ ground (arith, two),
    )

-- When a list of jobs arrives that knows the current job and no relative of it of another name, the
-- component shows the message that there are no dependencies and nothing else, whatever happened
-- before.
pub render_no_dependencies :
    (s : State) (current : Job) (jobs : List Job)
    → has_key (job_map jobs) current.name ≡ true
    → ((a : String)
        → Relative (job_map jobs) current.name a
        → has_key (job_map jobs) a ≡ true
        → current.name ≡ a)
    → render (some current) (react s (jobs_arrived jobs)) ≡ some (no_dependencies ∷ [])
unfolding has_no_dependencies
render_no_dependencies s current jobs known only =
    let (g, built, distinct, _) = build_dependency_graph_apart current jobs in
    let one =
      one_of g.nodes current.name
        (λ a there.
          let (h, built', near) = build_dependency_graph_nodes_iff current jobs a in
          let same = same_graph built' built in
          let r = near.0 (subst (λ (k : Graph). has (ids k.nodes) a ≡ true) same there) in
          only a r.0 r.1)
        distinct in
    render_after_jobs current jobs s g (diagram_of_built current jobs g current.name known built)
    ∙ ground (arith, one)
