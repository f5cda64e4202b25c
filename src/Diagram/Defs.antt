-- ===== src/Diagram/Defs.antt =====
-- `dkron/ui/src/jobs/JobDependencyDiagram.tsx`: the types, the constants, and the optional texts
-- of a job as the code tests them.
use phan_tan_dkron_giuaky.Common.{
  ℕ, ◌≡◌, true, Bool, not, Option, none, some, List, [], String, ℤ, get, has, has_key, ◌==◌,
  string_eq, if◌then◌else◌,
}

pub record Job : Type 0 where
  pub id : String
  pub name : String
  pub displayname : Option String
  pub parent_job : Option String
  pub dependent_jobs : Option (List String)
  pub status : Option String

-- `x` and `y` are pixels. No row is wider than the widest, so `x` is never negative.
pub record DependencyNode : Type 0 where
  pub id : String
  pub name : String
  pub display_name : String
  pub status : String
  pub x : ℕ
  pub y : ℤ
  pub level : ℤ
  pub is_current : Bool

pub record DependencyEdge : Type 0 where
  pub from : String
  pub to : String
  pub from_x : ℕ
  pub from_y : ℤ
  pub to_x : ℕ
  pub to_y : ℤ

abbrev pub node_width : ℕ
node_width = 160

abbrev pub node_height : ℕ
node_height = 60

abbrev pub level_height : ℕ
level_height = 100

abbrev pub node_spacing : ℕ
node_spacing = 20

abbrev pub JobMap : Type 0
JobMap = List (String × Job)

-- The truth of a text: `""` is false.
abbrev pub truthy : String → Bool
truthy s = not (s == "")

-- `o || d` for an optional text
unfoldable pub or_text : Option String → String → String
or_text none d = d
or_text (some s) d = if truthy s then s else d

-- `job.dependent_jobs || []`
unfoldable pub children_of : Job → List String
children_of job = elim job.dependent_jobs [ none ↦ [] | some cs ↦ cs ]

-- The job `child` is known, and names the known job `p` as its parent.
pub record IsParent (m : JobMap) (child p : String) : Type 0 where
  pub job : Job
  pub found : get m child ≡ some job
  pub named : job.parent_job ≡ some p
  pub nonempty : truthy p ≡ true
  pub known : has_key m p ≡ true

-- The job `parent` is known, and lists the known job `c` among its dependents.
pub record IsChild (m : JobMap) (parent c : String) : Type 0 where
  pub job : Job
  pub found : get m parent ≡ some job
  pub listed : has (children_of job) c ≡ true
  pub known : has_key m c ≡ true

-- One or more steps of a relation between job names.
pub data Reach (Next : String → String → Type 0) (a : String) : String → Type 0 where
  one : {b : String} → Next a b → Reach Next a b
  more : {b c : String} → Reach Next a b → Next b c → Reach Next a c

pub Reach-before :
    (Next : String → String → Type 0) (a : String) {b c : String}
    → Next a b
    → Reach Next b c
    → Reach Next a c
Reach-before Next a h (one k) = more (one h) k
Reach-before Next a h (more r k) = more (Reach-before Next a h r) k
