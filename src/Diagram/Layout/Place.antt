-- ===== src/Diagram/Layout/Place.antt =====
-- `dkron/ui/src/jobs/JobDependencyDiagram.tsx`, lines 255 to 322: `levelGroups`, `sortedLevels`,
-- `minLevel`, `maxWidth`, `nodePositions`, `nodes` and `edges`.
use phan_tan_dkron_giuaky.Common.{
  ℕ, suc, ◌+◌, ◌-◌, ◌*◌, ◌/◌, max, ◌&&◌, some, none, List, [], ◌∷◌, ◌++◌, String, ℤ, pos, ◌+ℤ◌,
  ◌-ℤ◌, ◌*ℤ◌, has, get, put, keys, has_key, length, foldl, sort_levels, ◌==◌, string_eq, int_eq,
  if◌then◌else◌,
}
use phan_tan_dkron_giuaky.Diagram.Defs.{
  Job, JobMap, DependencyNode, DependencyEdge, truthy, or_text, node_width, node_spacing,
  level_height,
}

-- `jobLevels.get(jobName) || 0`
unfoldable pub level_of : List (String × ℤ) → String → ℤ
level_of levels name = elim (get levels name) [ none ↦ pos 0 | some l ↦ l ]

abbrev pub Groups : Type 0
Groups = List (ℤ × List String)

-- `levelGroups.get(level) || []`
unfoldable pub jobs_at : Groups → ℤ → List String
jobs_at groups level = elim (get groups level) [ none ↦ [] | some names ↦ names ]

-- `if (!levelGroups.has(level)) { levelGroups.set(level, []); }`
unfoldable pub ensure_group : Groups → ℤ → Groups
ensure_group groups level = if has_key groups level then groups else put groups level []

-- One round of the loop that fills `levelGroups`; `push` changes the list that the map holds.
unfoldable pub group_job : List (String × ℤ) → Groups → String → Groups
unfolding level_of jobs_at ensure_group
group_job levels groups name =
    let level = level_of levels name in
    let groups' = ensure_group groups level in
    put groups' level (jobs_at groups' level ++ name ∷ [])

unfoldable pub group_jobs : List (String × ℤ) → List String → Groups
unfolding group_job
group_jobs levels related = foldl (group_job levels) [] related

unfoldable pub sorted_levels : Groups → List ℤ
sorted_levels groups = sort_levels (keys groups)

-- `sortedLevels[0] || 0`
unfoldable pub min_level : List ℤ → ℤ
min_level [] = pos 0
min_level (l ∷ _) = l

-- `levelWidth`. It would be -20 at an empty row, and no row is empty.
unfoldable pub row_width : List String → ℕ
row_width names = length names * (node_width + node_spacing) - node_spacing

-- The first loop over the levels, for `maxWidth`.
unfoldable pub widest : Groups → ℕ → List ℤ → ℕ
unfolding row_width jobs_at
widest groups width [] = width
widest groups width (l ∷ ls) = widest groups (max width (row_width (jobs_at groups l))) ls

pub record Point : Type 0 where
  pub x : ℕ
  pub y : ℤ

-- The variables that the second loop over the levels changes.
pub record Drawing : Type 0 where
  pub positions : List (String × Point)
  pub nodes : List DependencyNode

-- The constants of that loop.
pub record Frame : Type 0 where
  pub jobs : JobMap
  pub current : String
  pub groups : Groups
  pub min_level : ℤ
  pub max_width : ℕ

unfoldable pub new_node : Frame → ℤ → Point → String → Job → DependencyNode
new_node fr level p name job = record {
  id = name;
  name = name;
  display_name = or_text job.displayname name;
  status = or_text job.status "untriggered";
  x = p.x;
  y = p.y;
  level = level -ℤ fr.min_level;
  is_current = name == fr.current;
}

unfoldable pub place_job : Frame → ℤ → Point → String → Drawing → Drawing
place_job fr level p name d = record {
  positions = put d.positions name p;
  nodes = elim (get fr.jobs name) [
    | none ↦ d.nodes
    | some job ↦ d.nodes ++ new_node fr level p name job ∷ []
  ];
}

-- `jobsAtLevel.forEach((jobName, index) => …)`
unfoldable pub place_row : Frame → ℤ → ℕ → ℤ → ℕ → List String → Drawing → Drawing
place_row fr level start_x y index [] d = d
place_row fr level start_x y index (name ∷ names) d =
    place_row fr level start_x y (suc index) names (
      place_job fr level (record { x = start_x + index * (node_width + node_spacing); y = y }) name
        d)

unfoldable pub start_of : Frame → List String → ℕ
start_of fr names = (fr.max_width - row_width names) / 2

unfoldable pub height_of : Frame → ℤ → ℤ
height_of fr level = (level -ℤ fr.min_level) *ℤ level_height +ℤ pos 30

-- The body of `sortedLevels.forEach((level) => …)`
unfoldable pub place_level : Frame → Drawing → ℤ → Drawing
unfolding jobs_at row_width start_of height_of
place_level fr d level =
    let names = jobs_at fr.groups level in
    place_row fr level (start_of fr names) (height_of fr level) 0 names d

abbrev pub blank : Drawing
blank = record { positions = []; nodes = [] }

abbrev pub draw : Frame → List ℤ → Drawing
draw fr = foldl (place_level fr) blank

-- The body of the last `relatedJobs.forEach`
unfoldable pub edge_of : JobMap → List String → List (String × Point) → String → List DependencyEdge
edge_of m related positions name = elim (get m name) [
  | none ↦ []
  | some job ↦ elim job.parent_job [
    | none ↦ []
    | some p ↦
        if truthy p && has related p
        then elim (get positions p) [
          | none ↦ []
          | some from_pos ↦ elim (get positions name) [
            | none ↦ []
            | some to_pos ↦
                record {
                  from = p;
                  to = name;
                  from_x = from_pos.x;
                  from_y = from_pos.y;
                  to_x = to_pos.x;
                  to_y = to_pos.y;
                }
                ∷ []
          ]
        ]
        else []
  ]
]

unfoldable pub edges_of :
    JobMap
    → List String
    → List (String × Point)
    → List DependencyEdge
    → List String
    → List DependencyEdge
unfolding edge_of
edges_of m related positions edges [] = edges
edges_of m related positions edges (name ∷ names) =
    edges_of m related positions (edges ++ edge_of m related positions name) names
