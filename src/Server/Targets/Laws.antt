-- ===== src/Server/Targets/Laws.antt =====
-- `getTargetNodes` of `dkron/dkron/agent.go` against what the tags of a job ask for.
use phan_tan_dkron_giuaky.Common.{
  ℕ, ◌≡◌, ◌≤◌, refl, sym, ap, ◌∙◌, Bool, true, false, ◌&&◌, Option, some, none, List, [], ◌∷◌, ◌++◌,
  String, ℤ, pos_part, leb, ◌==◌, string_eq, codes_eq, get, codes_of, if◌then◌else◌, length, arith,
}
use phan_tan_dkron_giuaky.Server.Targets.{
  Node, Tags, split_colons, limit_of, bare_of, max_int, lowered, clean_tags, node_matches_tags,
  qualifies, get_qualifying_nodes, get_target_nodes,
}
use phan_tan_dkron_giuaky.Server.Targets.Arrays.{length-Perm}
use phan_tan_dkron_giuaky.Server.Targets.Filter.{keep, keep_same, keep-le, filter_array-Perm}
use phan_tan_dkron_giuaky.Server.Targets.Select.{Chooses, select_nodes_lem}
use mathlib.Core.List.{Permᴰ}

-- The node has the tag `k`, with the part of the value `v` that is before its first colon.
pub carries : Node → String → String → Bool
carries node k v = elim (get node.tags k) [
  | none ↦ false
  | some value ↦ codes_of value == bare_of (split_colons (codes_of v))
]

pub carries_all : Node → Tags → Bool
carries_all node [] = true
carries_all node ((k, v) ∷ tags) = carries node k v && carries_all node tags

-- The node is alive, in the region, and has all the tags.
pub suits : String → Tags → Node → Bool
suits region tags node =
    node.is_alive
    && (elim (get node.tags "region") [ none ↦ "" | some v ↦ v ]) == region
    && carries_all node tags

abbrev smaller : ℕ → ℕ → ℕ
smaller a b = if leb a b then a else b

abbrev limited : ℕ → Option ℤ → ℕ
limited n none = n
limited n (some limit) = smaller n (pos_part limit)

-- The number `n`, or the lowest cardinality that a tag names with it, if that is lower
pub at_most : Tags → ℕ → ℕ
at_most [] n = n
at_most ((k, v) ∷ tags) n = at_most tags (limited n (limit_of (split_colons (codes_of v))))

matches-carries :
    (node : Node) (tags : Tags) (c : ℤ)
    → node_matches_tags node (clean_tags tags c).0 ≡ carries_all node tags
unfolding node_matches_tags clean_tags carries carries_all
matches-carries node [] c = refl
matches-carries node ((k, v) ∷ tags) c =
    ap (λ rest. carries node k v && rest)
      (matches-carries node tags (lowered c (limit_of (split_colons (codes_of v)))))

qualifies-suits :
    (region : String) (tags : Tags) (c : ℤ) (node : Node)
    → qualifies region (clean_tags tags c).0 node ≡ suits region tags node
unfolding qualifies suits
qualifies-suits region tags c node = rw (matches-carries node tags c) refl

qualifying-Perm :
    (region : String) (members : List Node) (tags : Tags) (c : ℤ)
    → Permᴰ
        (get_qualifying_nodes region members (clean_tags tags c).0)
        (keep (suits region tags) members)
unfolding get_qualifying_nodes
qualifying-Perm region members tags c =
    rw
      (sym (
        keep_same (qualifies region (clean_tags tags c).0) (suits region tags) members
          (qualifies-suits region tags c)))
      (filter_array-Perm (qualifies region (clean_tags tags c).0) members)

lowered-limited :
    (c : ℤ) (limit : Option ℤ) (n : ℕ)
    → smaller n (pos_part (lowered c limit)) ≡ limited (smaller n (pos_part c)) limit
unfolding lowered
lowered-limited c none n = refl
lowered-limited c (some limit) n = ground arith

-- The loop of `cleanTags` finds the lowest cardinality.
cardinality_lem :
    (tags : Tags) (c : ℤ) (n : ℕ)
    → smaller n (pos_part (clean_tags tags c).1) ≡ at_most tags (smaller n (pos_part c))
unfolding clean_tags at_most
cardinality_lem [] c n = refl
cardinality_lem ((k, v) ∷ tags) c n =
    let limit = limit_of (split_colons (codes_of v)) in
    cardinality_lem tags (lowered c limit) n ∙ ap (at_most tags) (lowered-limited c limit n)

module _ (select : List Node → ℕ) (chooses : Chooses select) where
  -- However the nodes are chosen among those of a list: the targets are members that are alive, in the
  -- region, and have each tag with the value before its colon, no member twice; and of all such members
  -- as many are taken as there are, or as the lowest cardinality of a tag says if that is lower, where a
  -- negative or malformed one counts as 0. The members are no more than a 64-bit integer counts.
  pub get_target_nodes_lem :
      (region : String) (members : List Node) (tags : Tags)
      → length members ≤ 9223372036854775807
      → (rest : List Node) × Permᴰ
          (get_target_nodes select region members tags ++ rest)
          (keep (suits region tags) members)
        × (length (get_target_nodes select region members tags)
            ≡ at_most tags (length (keep (suits region tags) members)))
  unfolding get_target_nodes
  get_target_nodes_lem region members tags few =
      let clean = clean_tags tags max_int in
      let qualifying = get_qualifying_nodes region members clean.0 in
      let perm = qualifying-Perm region members tags max_int in
      let (rest, chosen, size) = select_nodes_lem select chooses qualifying clean.1 in
      let same = length-Perm _ _ perm in
      let lowest = cardinality_lem tags max_int (length (keep (suits region tags) members)) in
      let all : smaller (length (keep (suits region tags) members)) 9223372036854775807
          ≡ length (keep (suits region tags) members) =
        ground (arith, keep-le (suits region tags) members) in
      (rest, Permᴰ.trans chosen perm, size ∙ rw same (lowest ∙ ap (at_most tags) all))
