-- ===== src/Tests/Page.antt =====
-- What the diagram's component shows.
use text.Mathlib.TextEquality.{eq_iff}
use phan_tan_dkron_giuaky.Common.{
  ◌≡◌, refl, inl, inr, true, some, none, List, [], ◌∷◌, String, has, has_key, get, put, string_eq,
  arith,
}
use phan_tan_dkron_giuaky.Diagram.Defs.{Job, Reach}
use phan_tan_dkron_giuaky.Diagram.Relatives.Walk.{job_map}
use phan_tan_dkron_giuaky.Diagram.Build.{Graph, build_dependency_graph}
use phan_tan_dkron_giuaky.Diagram.Build.Relatives.{Relative}
use phan_tan_dkron_giuaky.Diagram.Page.{initial, react, jobs_arrived, render, no_dependencies}
use phan_tan_dkron_giuaky.Diagram.Page.Panels.{picture, render_diagram, render_no_dependencies}

abbrev child : Job
child = record {
  id = "child";
  name = "child";
  displayname = none;
  parent_job = some "parent";
  dependent_jobs = none;
  status = none;
}

abbrev parent : Job
parent = record {
  id = "parent";
  name = "parent";
  displayname = none;
  parent_job = none;
  dependent_jobs = none;
  status = none;
}

abbrev both : List Job
both = parent ∷ child ∷ []

child_known : has_key (job_map both) "child" ≡ true
unfolding has_key job_map put has
child_known = refl

parent_known : has_key (job_map both) "parent" ≡ true
unfolding has_key job_map put has
parent_known = refl

parent_near : Relative (job_map both) "child" "parent"
unfolding has_key job_map put has get
parent_near = inr (
    inl (
      Reach.one
        (record { job = child; found = refl; named = refl; nonempty = refl; known = refl })))

render_diagram_example :
    (g : Graph) × (build_dependency_graph child both ≡ some g)
    × (render (some child) (react initial (jobs_arrived both)) ≡ some (picture g ∷ []))
render_diagram_example =
    render_diagram initial child both "parent" child_known parent_known
      (ground (arith, eq_iff "child" "parent")) parent_near

lone_known : has_key (job_map (parent ∷ [])) "parent" ≡ true
unfolding has_key job_map put has
lone_known = refl

lone : (a : String) → has_key (job_map (parent ∷ [])) a ≡ true → "parent" ≡ a
unfolding has_key job_map put has
lone a h = ground (arith, eq_iff "parent" a)

render_no_dependencies_example :
    render (some parent) (react initial (jobs_arrived (parent ∷ []))) ≡ some (no_dependencies ∷ [])
render_no_dependencies_example =
    render_no_dependencies initial parent (parent ∷ []) lone_known (λ a near known. lone a known)
