-- ===== src/Tests/Ladder.antt =====
-- The step from `extract` down to `load`, in the jobs of `Pipeline`.
use text.Mathlib.TextEquality.{eq_iff}
use phan_tan_dkron_giuaky.Common.{
  ◌≡◌, refl, sym, subst, some, inl, inr, String, string_eq, get, put, has_key, has, pos, ◌+ℤ◌,
  arith,
}
use phan_tan_dkron_giuaky.Diagram.Defs.{DependencyNode, IsParent, IsChild, Reach, level_height}
use phan_tan_dkron_giuaky.Diagram.Relatives.Walk.{job_map}
use phan_tan_dkron_giuaky.Diagram.Relatives.Ladder.{Above}
use phan_tan_dkron_giuaky.Diagram.Build.{Graph, build_dependency_graph}
use phan_tan_dkron_giuaky.Diagram.Build.Ladder.{node_named, build_dependency_graph_steps}
use phan_tan_dkron_giuaky.Tests.Pipeline.{
  load, jobs, IsParent-extract, above_load, load_not_above, below_load,
}

none_above_extract : {a : String} → ¬ Reach (IsParent (job_map jobs)) "extract" a
none_above_extract (Reach.one {b} s) = IsParent-extract b s
none_above_extract (Reach.more r s) = none_above_extract r

no_cycle : (a : String) → Above (job_map jobs) "load" a → ¬ Reach (IsParent (job_map jobs)) a a
no_cycle a (inl same) r =
    load_not_above (subst (λ x. Reach (IsParent (job_map jobs)) x x) (sym same) r)
no_cycle a (inr up) r =
    none_above_extract (subst (λ x. Reach (IsParent (job_map jobs)) x x) (above_load up) r)

not_below : (a : String) → Above (job_map jobs) "load" a → ¬ Reach (IsChild (job_map jobs)) "load" a
not_below a (inl same) r =
    ground (arith, same, below_load r, eq_iff "load" "report", eq_iff "load" "mail")
not_below a (inr up) r =
    ground (arith, above_load up, below_load r, eq_iff "extract" "report", eq_iff "extract" "mail")

IsParent-load : IsParent (job_map jobs) "load" "extract"
unfolding job_map put get has_key has
IsParent-load = record { job = load; found = refl; named = refl; nonempty = refl; known = refl }

build_dependency_graph_steps_example :
    (g : Graph) × (build_dependency_graph load jobs ≡ some g)
    × (n : DependencyNode) × (k : DependencyNode) × (node_named g.nodes "load" ≡ some n)
    × (node_named g.nodes "extract" ≡ some k)
    × (n.y ≡ k.y +ℤ pos level_height)
build_dependency_graph_steps_example =
    build_dependency_graph_steps load jobs no_cycle not_below "load" "extract" (inl refl)
      IsParent-load
