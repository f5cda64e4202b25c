-- ===== src/Tests/Searches.antt =====
-- The two searches on jobs whose parents form a cycle: `a` and `b` name each other.
use phan_tan_dkron_giuaky.Common.{
  ◌≡◌, ◌↔◌, true, some, none, List, [], ◌∷◌, String, pos, has, string_eq,
}
use phan_tan_dkron_giuaky.Diagram.Defs.{Job, JobMap, IsParent, IsChild, Reach}
use phan_tan_dkron_giuaky.Diagram.Relatives.Walk.{Walk, find_ancestors, find_descendants}
use phan_tan_dkron_giuaky.Diagram.Relatives.Correct.{
  depth_bound, new_walk, find_ancestors_iff_Reach, find_descendants_iff_Reach,
}

abbrev cyclic : String → String → Job
cyclic name other = record {
  id = name;
  name = name;
  displayname = none;
  parent_job = some other;
  dependent_jobs = some (other ∷ []);
  status = none;
}

abbrev m : JobMap
m = ("a", cyclic "a" "b") ∷ ("b", cyclic "b" "a") ∷ []

find_ancestors_iff_Reach_example :
    (r : List String × Walk) × (find_ancestors (depth_bound m) m "a" (pos 0) (new_walk []) ≡ some r)
    × ((has r.0 "b" ≡ true) ↔ Reach (IsParent m) "a" "b")
find_ancestors_iff_Reach_example = find_ancestors_iff_Reach m "a" "b" []

find_descendants_iff_Reach_example :
    (r : List String × Walk) × (find_descendants (depth_bound m) m "a" (pos 0) (new_walk [])
      ≡ some r)
    × ((has r.0 "b" ≡ true) ↔ Reach (IsChild m) "a" "b")
find_descendants_iff_Reach_example = find_descendants_iff_Reach m "a" "b" []
