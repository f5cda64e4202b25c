-- ===== src/Diagram/Relatives/Walk.antt =====
-- `dkron/ui/src/jobs/JobDependencyDiagram.tsx`, lines 207 to 245: `jobMap`, `jobLevels`,
-- `findAncestors` and `findDescendants`.
use phan_tan_dkron_giuaky.Common.{
  ℕ, zero, suc, ◌&&◌, true, false, Option, none, some, List, [], ◌∷◌, ◌++◌, String, ℤ, pos, ◌+ℤ◌,
  ◌-ℤ◌, has, add, get, put, has_key, if◌then◌else◌, ◌>>=◌, foldl, string_eq,
}
use phan_tan_dkron_giuaky.Diagram.Defs.{Job, JobMap, truthy, children_of}

-- `new Map(allJobs.map((j) => [j.name, j]))`
unfoldable pub job_map : List Job → JobMap
job_map jobs = foldl (λ m j. put m j.name j) [] jobs

pub record Walk : Type 0 where
  pub processed : List String
  pub levels : List (String × ℤ)

abbrev pub process : String → Walk → Walk
process name w = record w { processed = add w.processed name }

abbrev pub set_level : String → ℤ → Walk → Walk
set_level name level w = record w { levels = put w.levels name level }

-- `job.parent_job`, if it is a text that is not empty and a key of the map
unfoldable pub known_parent : JobMap → Job → Option String
known_parent m job = elim job.parent_job [
  | none ↦ none
  | some p ↦ if truthy p && has_key m p then some p else none
]

unfoldable pub find_ancestors : ℕ → JobMap → String → ℤ → Walk → Option (List String × Walk)
find_ancestors zero m name level w = none
find_ancestors (suc fuel) m name level w = elim (has w.processed name) [
  | true ↦ some ([], w)
  | false ↦ elim (get m name) [
    | none ↦ some ([], process name w)
    | some job ↦ elim (known_parent m job) [
      | none ↦ some ([], process name w)
      | some p ↦ do
        (rest, w') ←
            find_ancestors fuel m p (level -ℤ pos 1) (set_level p (level -ℤ pos 1) (process name w))
        some (p ∷ rest, w')
    ]
  ]
]

-- `children.forEach(…)`, with the recursive call as `visit`
unfoldable pub each_child :
    (String → ℤ → Walk → Option (List String × Walk))
    → JobMap
    → ℤ
    → List String
    → Walk
    → Option (List String × Walk)
each_child visit m level [] w = some ([], w)
each_child visit m level (c ∷ cs) w = elim (has_key m c) [
  | true ↦ do
    (below, w') ← visit c (level +ℤ pos 1) (set_level c (level +ℤ pos 1) w)
    (rest, w'') ← each_child visit m level cs w'
    some (c ∷ below ++ rest, w'')
  | false ↦ each_child visit m level cs w
]

unfoldable pub find_descendants : ℕ → JobMap → String → ℤ → Walk → Option (List String × Walk)
find_descendants zero m name level w = none
find_descendants (suc fuel) m name level w = elim (has w.processed name) [
  | true ↦ some ([], w)
  | false ↦ elim (get m name) [
    | none ↦ some ([], process name w)
    | some job ↦ each_child (find_descendants fuel m) m level (children_of job) (process name w)
  ]
]
