-- ===== src/Tests/Targets.antt =====
-- Three members of a cluster, two of them with the role that a job asks for.
use phan_tan_dkron_giuaky.Common.{
  ℕ, ◌≡◌, refl, Bool, true, false, List, [], ◌∷◌, ◌++◌, String, string_eq, codes_eq, get, codes_of,
  length, arith,
}
use phan_tan_dkron_giuaky.Server.Number.{read_number}
use phan_tan_dkron_giuaky.Server.Targets.{Node, Tags, get_target_nodes}
use phan_tan_dkron_giuaky.Server.Targets.Filter.{keep}
use phan_tan_dkron_giuaky.Server.Targets.Laws.{suits, at_most, get_target_nodes_lem}
use mathlib.Core.List.{Permᴰ}

abbrev member : String → Bool → String → Node
member name alive role = record {
  name = name;
  is_alive = alive;
  tags = ("region", "global") ∷ ("role", role) ∷ [];
}

abbrev members : List Node
members = member "n1" true "web" ∷ member "n2" true "web" ∷ member "n3" false "web" ∷ []

abbrev one_web : Tags
one_web = ("role", "web:1") ∷ []

abbrev the_first : List Node → ℕ
the_first nodes = 0

takes_first : get_target_nodes the_first "global" members one_web ≡ member "n1" true "web" ∷ []
unfolding get_target_nodes read_number get codes_of
takes_first = refl

get_target_nodes_lem_example :
    (rest : List Node) × Permᴰ
      (get_target_nodes the_first "global" members one_web ++ rest)
      (keep (suits "global" one_web) members)
    × (length (get_target_nodes the_first "global" members one_web)
        ≡ at_most one_web (length (keep (suits "global" one_web) members)))
get_target_nodes_lem_example =
    get_target_nodes_lem the_first (λ nodes some_node. some_node) "global" members one_web
      (omega arith)
