-- ===== src/Server/Targets.antt =====
-- Which nodes run a job: `dkron/dkron/tags.go`, and `getTargetNodes` and what it calls in
-- `dkron/dkron/agent.go`, with the choice that `Run` of `dkron/dkron/run.go` makes. The members of the
-- cluster come from a package, and a function picks one of some nodes, by chance in the program.
pub mod Arrays
pub mod Filter
pub mod Select
pub mod Laws
use phan_tan_dkron_giuaky.Common.{
  ℕ, zero, suc, ◌-◌, ◌≡◌, Bool, true, false, not, ◌&&◌, Option, some, none, List, [], ◌∷◌, String,
  ℤ, pos, negsuc, pos_part, ◌==◌, string_eq, codes_eq, get, length, leb_ℤ, leb, ltb, eqb, codes_of,
  if◌then◌else◌,
}
use phan_tan_dkron_giuaky.Server.Number.{read_number}

-- A member of the cluster
pub record Node : Type 0 where
  pub name : String
  pub is_alive : Bool
  pub tags : List (String × String)

abbrev pub Tags : Type 0
Tags = List (String × String)

-- `strings.Split(v, ":")`
unfoldable pub split_colons : List ℕ → List (List ℕ)
split_colons [] = [] ∷ []
split_colons (c ∷ s) = elim (split_colons s) [
  | [] ↦ (c ∷ []) ∷ []
  | part ∷ parts ↦ if eqb c b':' then [] ∷ part ∷ parts else (c ∷ part) ∷ parts
]

-- `strconv.Atoi`: a sign, digits, and no more than 64 bits
unfoldable pub atoi : List ℕ → Option ℤ
atoi [] = none
atoi (c ∷ s) =
    if eqb c b'-'
    then elim (read_number s) [
      | none ↦ none
      | some zero ↦ some (pos 0)
      | some (suc n) ↦ if ltb n 9223372036854775808 then some (negsuc n) else none
    ]
    else elim (read_number (if eqb c b'+' then s else c ∷ s)) [
      | none ↦ none
      | some n ↦ if ltb n 9223372036854775808 then some (pos n) else none
    ]

-- The cardinality that a value names; 0 if it is malformed
unfoldable pub limit_of : List (List ℕ) → Option ℤ
unfolding atoi
limit_of (value ∷ number ∷ []) = some (elim (atoi number) [ none ↦ pos 0 | some n ↦ n ])
limit_of parts = none

unfoldable pub bare_of : List (List ℕ) → List ℕ
bare_of [] = []
bare_of (value ∷ parts) = value

abbrev pub max_int : ℤ
max_int = pos 9223372036854775807

unfoldable pub lowered : ℤ → Option ℤ → ℤ
lowered cardinality none = cardinality
lowered cardinality (some n) = if not (leb_ℤ cardinality n) then n else cardinality

-- The rest of the loop of `cleanTags`, with the lowest cardinality so far
unfoldable pub clean_tags : Tags → ℤ → List (String × List ℕ) × ℤ
unfolding split_colons limit_of bare_of lowered
clean_tags [] cardinality = ([], cardinality)
clean_tags ((k, v) ∷ tags) cardinality =
    let parts = split_colons (codes_of v) in
    let rest = clean_tags tags (lowered cardinality (limit_of parts)) in
    ((k, bare_of parts) ∷ rest.0, rest.1)

-- The round of the loop of `nodeMatchesTags`, and the loop
unfoldable pub matches_tag : Node → String → List ℕ → Bool
matches_tag node k v = elim (get node.tags k) [ none ↦ false | some value ↦ codes_of value == v ]

unfoldable pub node_matches_tags : Node → List (String × List ℕ) → Bool
unfolding matches_tag
node_matches_tags node [] = true
node_matches_tags node ((k, v) ∷ tags) = matches_tag node k v && node_matches_tags node tags

-- `arr[i]`, `arr[i] = v` and `arr[:n]`. The program reads and writes no other places.
abbrev pub get_elem? : List Node → ℕ → Option Node
get_elem? [] i = none
get_elem? (x ∷ xs) zero = some x
get_elem? (x ∷ xs) (suc i) = get_elem? xs i

abbrev pub set : List Node → ℕ → Node → List Node
set [] i v = []
set (x ∷ xs) zero v = v ∷ xs
set (x ∷ xs) (suc i) v = x ∷ set xs i v

abbrev pub first : ℕ → List Node → List Node
first zero xs = []
first (suc n) [] = []
first (suc n) (x ∷ xs) = x ∷ first n xs

abbrev pub from : ℕ → List Node → List Node
from zero xs = xs
from (suc n) [] = []
from (suc n) (x ∷ xs) = from n xs

-- `arr[i] = arr[j]`
abbrev pub copy : List Node → ℕ → ℕ → List Node
copy arr i j = elim (get_elem? arr j) [ none ↦ arr | some v ↦ set arr i v ]

-- The loop of `filterArray`, from the index below `n` down
unfoldable pub filter_below : (Node → Bool) → ℕ → List Node → List Node
filter_below f zero arr = arr
filter_below f (suc i) arr = filter_below f i (elim (get_elem? arr i) [
  | none ↦ arr
  | some x ↦ if f x then arr else first (length arr - 1) (copy arr i (length arr - 1))
])

unfoldable pub filter_array : (Node → Bool) → List Node → List Node
unfolding filter_below
filter_array f arr = filter_below f (length arr) arr

unfoldable pub qualifies : String → List (String × List ℕ) → Node → Bool
unfolding node_matches_tags
qualifies region bare_tags node =
    node.is_alive
    && (elim (get node.tags "region") [ none ↦ "" | some v ↦ v ]) == region
    && node_matches_tags node bare_tags

-- `getQualifyingNodes`
unfoldable pub get_qualifying_nodes : String → List Node → List (String × List ℕ) → List Node
unfolding filter_array qualifies
get_qualifying_nodes region nodes bare_tags = filter_array (qualifies region bare_tags) nodes

-- `nodes[i], nodes[j] = nodes[j], nodes[i]`
unfoldable pub swap : List Node → ℕ → ℕ → List Node
swap arr i j = elim (get_elem? arr i) [
  | none ↦ arr
  | some x ↦ elim (get_elem? arr j) [ none ↦ arr | some y ↦ set (set arr i y) j x ]
]

module _ (select : List Node → ℕ) where
  -- The loop of `selectNodes`, with the rounds that are left and the number of nodes to choose from
  unfoldable pub select_rounds : ℕ → List Node → ℕ → List Node × ℕ
  unfolding swap
  select_rounds zero nodes n = (nodes, n)
  select_rounds (suc rounds) nodes n =
      select_rounds rounds (swap nodes (n - 1) (select (first n nodes))) (n - 1)

  -- `selectNodes`
  unfoldable pub select_nodes : List Node → ℤ → List Node
  unfolding select_rounds
  select_nodes nodes cardinality =
      if leb_ℤ (pos (length nodes)) cardinality
      then nodes
      else let chosen = select_rounds (pos_part cardinality) nodes (length nodes) in
        from chosen.1 chosen.0

  -- `getTargetNodes`, with the region of the agent and the members of the cluster
  unfoldable pub get_target_nodes : String → List Node → Tags → List Node
  unfolding clean_tags get_qualifying_nodes select_nodes
  get_target_nodes region members tags =
      let clean = clean_tags tags max_int in
      select_nodes (get_qualifying_nodes region members clean.0) clean.1
