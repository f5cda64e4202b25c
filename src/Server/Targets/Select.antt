-- ===== src/Server/Targets/Select.antt =====
-- `selectNodes` of `dkron/dkron/agent.go` picks as many nodes as it is to, and none twice.
use phan_tan_dkron_giuaky.Common.{
  ℕ, zero, suc, ◌-◌, ◌≡◌, ◌≤◌, ◌<◌, refl, sym, ◌⊎◌, inl, inr, some, List, [], ◌∷◌, ◌++◌, ℤ, pos,
  pos_part, leb, leb_ℤ, if◌then◌else◌, length, Bool-cases, arith,
}
use phan_tan_dkron_giuaky.Server.Targets.{
  Node, get_elem?, first, from, swap, select_rounds, select_nodes,
}
use phan_tan_dkron_giuaky.Server.Targets.Arrays.{
  get_elem?-middle, set-middle, first-from, length-first, length-from, length-Perm, split_at,
}
use mathlib.Core.List.{Permᴰ, append_assoc}
use mathlib.Core.List.Permᴰ

exchange :
    (y : Node) (ys : List Node) (z : Node) (zs : List Node)
    → Permᴰ (z ∷ (ys ++ y ∷ zs)) (y ∷ (ys ++ z ∷ zs))
exchange y ys z zs =
    Permᴰ.trans (Permᴰ.cons refl (Permᴰ.middle y ys zs))
      (Permᴰ.trans (Permᴰ.swap refl refl) (Permᴰ.cons refl (Permᴰ.symm (Permᴰ.middle z ys zs))))

swap_same :
    (xs : List Node) (z : Node) (zs : List Node)
    → swap (xs ++ z ∷ zs) (length xs) (length xs) ≡ xs ++ z ∷ zs
unfolding swap
swap_same xs z zs =
    let there = get_elem?-middle xs z zs in
    rw (swap, there) (rw there (rw (set-middle xs z z zs) (set-middle xs z z zs)))

swap_earlier :
    (xs : List Node) (y : Node) (ys : List Node) (z : Node) (zs : List Node)
    → swap ((xs ++ y ∷ ys) ++ z ∷ zs) (length (xs ++ y ∷ ys)) (length xs) ≡ xs ++ z ∷ (ys ++ y ∷ zs)
unfolding swap
swap_earlier xs y ys z zs =
    let there : get_elem? ((xs ++ y ∷ ys) ++ z ∷ zs) (length xs) ≡ some y =
      rw (append_assoc xs (y ∷ ys) (z ∷ zs)) (get_elem?-middle xs y (ys ++ z ∷ zs)) in
    rw (swap, get_elem?-middle (xs ++ y ∷ ys) z zs)
      (rw there (
        rw (set-middle (xs ++ y ∷ ys) z y zs)
          (rw (append_assoc xs (y ∷ ys) (y ∷ zs)) (set-middle xs y z (ys ++ y ∷ zs)))))

le_cases : (j i : ℕ) → j ≤ i → (j ≡ i) ⊎ (j < i)
le_cases j i h = elim (Bool-cases (leb i j)) [
  | inl same ↦ inl (ground arith)
  | inr less ↦ inr (ground arith)
]

swap-Perm : (arr : List Node) (i j : ℕ) → i < length arr → j ≤ i → Permᴰ (swap arr i j) arr
swap-Perm arr i j within le =
    let (ws, z, zs, same, at) = split_at arr i within in
    elim (le_cases j i le) [
      | inl equal ↦ rw same (rw equal (rw (sym at) (rw (swap_same ws z zs) (Permᴰ.refl _))))
      | inr less ↦
          let (xs, y, ys, same', at') = split_at ws j (omega (arith, at)) in
          rw same (
            rw (sym at) (
              rw (sym at') (
                rw same' (
                  rw (swap_earlier xs y ys z zs) (
                    rw (append_assoc xs (y ∷ ys) (z ∷ zs))
                      (Permᴰ.append_left xs (exchange y ys z zs)))))))
    ]

-- A choice among some nodes is one of them.
abbrev pub Chooses : (List Node → ℕ) → Type 0
Chooses select = (nodes : List Node) → 0 < length nodes → select nodes < length nodes

module _ (select : List Node → ℕ) (chooses : Chooses select) where
  select_rounds_lem :
      (rounds : ℕ) (nodes : List Node) (n : ℕ)
      → rounds ≤ n
      → n ≤ length nodes
      → Permᴰ (select_rounds select rounds nodes n).0 nodes
        × ((select_rounds select rounds nodes n).1 ≡ n - rounds)
  unfolding select_rounds
  select_rounds_lem zero nodes n few within = (Permᴰ.refl nodes, omega arith)
  select_rounds_lem (suc rounds) nodes n few within =
      let size = length-first n nodes within in
      let chosen : select (first n nodes) < n =
        omega (arith, size, chooses (first n nodes) (omega (arith, size))) in
      let swapped =
        swap-Perm nodes (n - 1) (select (first n nodes)) (omega arith) (omega (arith, chosen)) in
      let (perm, left) =
        select_rounds_lem rounds (swap nodes (n - 1) (select (first n nodes))) (n - 1) (omega arith)
          (omega (arith, length-Perm _ _ swapped)) in
      (Permᴰ.trans perm swapped, omega (arith, left))

  pub select_nodes_lem :
      (nodes : List Node) (cardinality : ℤ)
      → (rest : List Node) × Permᴰ (select_nodes select nodes cardinality ++ rest) nodes
        × (length (select_nodes select nodes cardinality) ≡ (
            if leb (length nodes) (pos_part cardinality)
            then length nodes
            else pos_part cardinality))
  unfolding select_nodes
  select_nodes_lem nodes cardinality = elim (Bool-cases (leb_ℤ (pos (length nodes)) cardinality)) [
    | inl all ↦
        let every : select_nodes select nodes cardinality ≡ nodes = ground arith in
        ([], rw every (Permᴰ.append-nil nodes), rw every (ground arith))
    | inr some_of ↦
        let n = pos_part cardinality in
        let few : n ≤ length nodes = ground arith in
        let (perm, left) = select_rounds_lem n nodes (length nodes) few (omega arith) in
        let chosen = select_rounds select n nodes (length nodes) in
        let picked : select_nodes select nodes cardinality ≡ from chosen.1 chosen.0 =
          ground arith in
        (
          first chosen.1 chosen.0,
          rw picked (
              Permᴰ.trans (Permᴰ.append_comm (from chosen.1 chosen.0) (first chosen.1 chosen.0))
                (rw (first-from chosen.1 chosen.0) perm)),
          rw picked (
              ground
                (arith, length-from chosen.1 chosen.0, length-Perm chosen.0 nodes perm, left, few)),
        )
  ]
