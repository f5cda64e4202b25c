-- ===== src/Tests/Pipeline.antt =====
-- `buildDependencyGraph` on four jobs: `extract` is the parent of `load`, which `report` and `mail`
-- depend on.
use text.Mathlib.TextEquality.{eq_iff}
use phan_tan_dkron_giuaky.Common.{
  ◌≡◌, ◌↔◌, true, Option, some, none, List, [], ◌∷◌, String, has, has_key, put, Distinct, All,
  Pairs, string_eq, get, subst, ◌⊎◌, inl, inr, arith,
}
use phan_tan_dkron_giuaky.Diagram.Defs.{Job, IsParent, IsChild, Reach, children_of}
use phan_tan_dkron_giuaky.Diagram.Relatives.Walk.{job_map}
use phan_tan_dkron_giuaky.Diagram.Layout.Apart.{Before}
use phan_tan_dkron_giuaky.Diagram.Layout.Rows.{at}
use phan_tan_dkron_giuaky.Diagram.Layout.Nodes.{ids}
use phan_tan_dkron_giuaky.Diagram.Build.{Graph, build_dependency_graph}
use phan_tan_dkron_giuaky.Diagram.Build.Relatives.{Relative}
use phan_tan_dkron_giuaky.Diagram.Build.Edges.{joined, Names}
use phan_tan_dkron_giuaky.Diagram.Build.Correct.{
  Meets, build_dependency_graph_apart, build_dependency_graph_nodes_iff,
  build_dependency_graph_edges_iff, build_dependency_graph-Meets,
}
use phan_tan_dkron_giuaky.Diagram.Build.Order.{Rows, build_dependency_graph_rows}
use phan_tan_dkron_giuaky.Diagram.Page.{svg_width, svg_height}
use phan_tan_dkron_giuaky.Diagram.Page.Bounds.{Fits, build_dependency_graph-Fits}

abbrev pub job_with : String → Option String → List String → Job
job_with name parent below = record {
  id = name;
  name = name;
  displayname = none;
  parent_job = parent;
  dependent_jobs = some below;
  status = some "success";
}

abbrev pub load : Job
load = job_with "load" (some "extract") ("report" ∷ "mail" ∷ [])

abbrev pub jobs : List Job
jobs =
    job_with "extract" none ("load" ∷ [])
    ∷ load
    ∷ job_with "report" (some "load") []
    ∷ job_with "mail" (some "load") []
    ∷ []

build_dependency_graph_apart_example :
    (g : Graph) × (build_dependency_graph load jobs ≡ some g)
    × Distinct (ids g.nodes)
    × Pairs (λ m n. Before (at m) (at n)) g.nodes
build_dependency_graph_apart_example = build_dependency_graph_apart load jobs

build_dependency_graph_nodes_iff_example :
    (g : Graph) × (build_dependency_graph load jobs ≡ some g)
    × ((has (ids g.nodes) "mail" ≡ true)
        ↔ (Relative (job_map jobs) "load" "mail" × (has_key (job_map jobs) "mail" ≡ true)))
build_dependency_graph_nodes_iff_example = build_dependency_graph_nodes_iff load jobs "mail"

build_dependency_graph_edges_iff_example :
    (g : Graph) × (build_dependency_graph load jobs ≡ some g)
    × ((joined g.edges "load" "mail" ≡ true) ↔ (
        Names (job_map jobs) "mail" "load"
        × (has (ids g.nodes) "load" ≡ true)
        × (has (ids g.nodes) "mail" ≡ true)))
build_dependency_graph_edges_iff_example = build_dependency_graph_edges_iff load jobs "load" "mail"

build_dependency_graph-Meets_example :
    (g : Graph) × (build_dependency_graph load jobs ≡ some g)
    × All (λ e. All (Meets e) g.nodes) g.edges
build_dependency_graph-Meets_example = build_dependency_graph-Meets load jobs

build_dependency_graph-Fits_example :
    (g : Graph) × (build_dependency_graph load jobs ≡ some g)
    × All (Fits (svg_width g.nodes) (svg_height g.nodes)) g.nodes
build_dependency_graph-Fits_example = build_dependency_graph-Fits load jobs

parent_of_load : (a : String) → IsParent (job_map jobs) "load" a → a ≡ "extract"
unfolding job_map put get
parent_of_load a s = cc (s.found, s.named)

pub IsParent-extract : (a : String) → ¬ IsParent (job_map jobs) "extract" a
unfolding job_map put get
IsParent-extract a s = cc (s.found, s.named)

-- Above `load` there is only `extract`.
pub above_load : {a : String} → Reach (IsParent (job_map jobs)) "load" a → a ≡ "extract"
above_load (Reach.one s) = parent_of_load _ s
above_load (Reach.more {b} {c} r s) =
    absurd (IsParent-extract c (subst (λ x. IsParent (job_map jobs) x c) (above_load r) s))

pub load_not_above : ¬ Reach (IsParent (job_map jobs)) "load" "load"
load_not_above r = ground (arith, above_load r, eq_iff "load" "extract")

-- Below `load` there are only jobs with no dependents.
abbrev pub Leaf : String → Type 0
Leaf a = (a ≡ "report") ⊎ (a ≡ "mail")

child_of_load : (a : String) → IsChild (job_map jobs) "load" a → Leaf a
unfolding job_map put get has children_of
child_of_load a s = ground (arith, s.found, s.listed, eq_iff "report" a, eq_iff "mail" a)

IsChild-report : (a : String) → ¬ IsChild (job_map jobs) "report" a
unfolding job_map put get has children_of
IsChild-report a s = ground (arith, s.found, s.listed)

IsChild-mail : (a : String) → ¬ IsChild (job_map jobs) "mail" a
unfolding job_map put get has children_of
IsChild-mail a s = ground (arith, s.found, s.listed)

IsChild-last : (b a : String) → Leaf b → ¬ IsChild (job_map jobs) b a
IsChild-last b a (inl e) s = IsChild-report a (subst (λ x. IsChild (job_map jobs) x a) e s)
IsChild-last b a (inr e) s = IsChild-mail a (subst (λ x. IsChild (job_map jobs) x a) e s)

pub below_load : {a : String} → Reach (IsChild (job_map jobs)) "load" a → Leaf a
below_load (Reach.one s) = child_of_load _ s
below_load (Reach.more {b} {c} r s) = absurd (IsChild-last b c (below_load r) s)

load_not_below : ¬ Reach (IsChild (job_map jobs)) "load" "load"
load_not_below r = ground (arith, below_load r, eq_iff "load" "report", eq_iff "load" "mail")

build_dependency_graph_rows_example :
    (g : Graph) × (build_dependency_graph load jobs ≡ some g)
    × All (λ c. All (Rows (job_map jobs) "load" c) g.nodes) g.nodes
build_dependency_graph_rows_example =
    build_dependency_graph_rows load jobs load_not_above load_not_below
