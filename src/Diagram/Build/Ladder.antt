-- ===== src/Diagram/Build/Ladder.antt =====
-- Where the parents form no cycle, each parent stands one row above its child.
use phan_tan_dkron_giuaky.Common.{
  ◌≡◌, refl, sym, ap, subst, ◌∙◌, true, inl, inr, some, none, Option, List, [], ◌∷◌, ◌++◌, String,
  ℤ, pos, ◌+ℤ◌, ◌-ℤ◌, int_laws, has, get, put, get-put, add_all, All, ◌==◌, ==_iff, string_eq,
  Bool-cases, arith, if◌then◌else◌, has_key, has_key_of_get,
}
use phan_tan_dkron_giuaky.Diagram.Defs.{
  Job, JobMap, DependencyNode, IsParent, IsChild, Reach, level_height,
}
use phan_tan_dkron_giuaky.Diagram.Relatives.Walk.{job_map}
use phan_tan_dkron_giuaky.Diagram.Relatives.Ladder.{Above, climb}
use phan_tan_dkron_giuaky.Diagram.Relatives.Correct.{
  new_walk, depth_bound, enough, descendants-Explored,
}
use phan_tan_dkron_giuaky.Diagram.Layout.Place.{level_of, height_of}
use phan_tan_dkron_giuaky.Diagram.Layout.Nodes.{ids}
use phan_tan_dkron_giuaky.Diagram.Build.{
  Graph, Related, find_related, graph_of, layout, build_dependency_graph,
}
use phan_tan_dkron_giuaky.Diagram.Build.Relatives.{Relative, IsRelated, find_related_total}
use phan_tan_dkron_giuaky.Diagram.Build.Drawn.{frame, has-ids-layout}
use phan_tan_dkron_giuaky.Diagram.Build.Order.{AtLevel, layout-AtLevel}

-- The first node with an id.
abbrev pub node_named : List DependencyNode → String → Option DependencyNode
node_named [] a = none
node_named (n ∷ ns) a = if n.id == a then some n else node_named ns a

node_named_of_has {ℓ} :
    {P : DependencyNode → Type ℓ} (ns : List DependencyNode) (a : String)
    → All P ns
    → has (ids ns) a ≡ true
    → (n : DependencyNode) × (node_named ns a ≡ some n) × (n.id ≡ a) × P n
unfolding has
node_named_of_has [] a h k = ground (arith, k)
node_named_of_has (n ∷ ns) a h k = elim (Bool-cases (n.id == a)) [
  | inl same ↦ (n, ground (arith, same), (==_iff n.id a).0 same, h.0)
  | inr other ↦
      let (n', found, named, p) = node_named_of_has ns a h.1 (ground (arith, k, other)) in
      (n', ground (arith, other, found), named, p)
]

level_at :
    (levels : List (String × ℤ)) (a : String) (l : ℤ)
    → get levels a ≡ some l
    → level_of levels a ≡ l
unfolding level_of
level_at levels a l h = ground arith

module _ (m : JobMap) (current : String)
    (no_cycle : (a : String) → Above m current a → ¬ Reach (IsParent m) a a)
    (not_below : (a : String) → Above m current a → ¬ Reach (IsChild m) current a) where
  -- One step down the ladder, in the levels of the related jobs.
  related_rung :
      (x p : String)
      → Above m current x
      → IsParent m x p
      → (r : Related) × (find_related m current ≡ some r)
        × (level_of r.levels x ≡ level_of r.levels p +ℤ pos 1)
  unfolding find_related has
  related_rung x p above next =
      let start = put [] current (pos 0) in
      let ((ancestors, up), ran, ladder) =
        climb m (depth_bound m) current (pos 0) (new_walk start) (enough m current start)
          (omega int_laws)
          (ground (arith, get-put {V = ℤ} [] current current (pos 0), ==_iff current current))
          no_cycle (λ a h. refl) in
      let ((descendants, down), ran', below) = descendants-Explored m current up.levels in
      let (l, at_x, at_p) = ladder.rungs x p above next in
      let kept : (a : String) → Above m current a → get down.levels a ≡ get up.levels a = λ a h.
        below.progress.kept a (elim (Bool-cases (has descendants a)) [
          | inl there ↦ absurd (not_below a h (below.sound a there))
          | inr missing ↦ missing
        ]) in
      let above_p : Above m current p = elim above [
        | inl same ↦ inr (Reach.one (subst (λ y. IsParent m y p) (sym same) next))
        | inr r ↦ inr (Reach.more r next)
      ] in
      (
        record { names = add_all [] (current ∷ ancestors ++ descendants); levels = down.levels },
        ground arith,
        rw
            (
              level_at down.levels x l (kept x above ∙ at_x),
              level_at down.levels p (l -ℤ pos 1) (kept p above_p ∙ at_p),
            )
            (omega int_laws),
      )

the_same :
    (m : JobMap) (c : String) (r s : Related)
    → find_related m c ≡ some r
    → find_related m c ≡ some s
    → r ≡ s
the_same m c r s h k = cc (h, k)

next_row :
    (m : JobMap) (current : String) (r : Related) (l k : ℤ)
    → l ≡ k +ℤ pos 1
    → height_of (frame m current r) l ≡ height_of (frame m current r) k +ℤ pos level_height
unfolding height_of
next_row m current r l k h = rw h (omega int_laws)

-- Where no job from the current one upwards is its own ancestor or a descendant of the current one:
-- the graph is built, and of every job `x` among them and its known parent `p` it has a node, that of
-- `x` exactly one row below that of `p`.
pub build_dependency_graph_steps :
    (current : Job) (jobs : List Job)
    → ((a : String) → Above (job_map jobs) current.name a → ¬ Reach (IsParent (job_map jobs)) a a)
    → ((a : String)
        → Above (job_map jobs) current.name a
        → ¬ Reach (IsChild (job_map jobs)) current.name a)
    → (x p : String) → Above (job_map jobs) current.name x
    → IsParent (job_map jobs) x p
    → (g : Graph) × (build_dependency_graph current jobs ≡ some g)
      × (n : DependencyNode) × (k : DependencyNode) × (node_named g.nodes x ≡ some n)
      × (node_named g.nodes p ≡ some k)
      × (n.y ≡ k.y +ℤ pos level_height)
unfolding build_dependency_graph graph_of
build_dependency_graph_steps current jobs no_cycle not_below x p above next =
    let m = job_map jobs in
    let c = current.name in
    let (r, ran, rung) = related_rung m c no_cycle not_below x p above next in
    let (r', ran', h') = find_related_total m c in
    let h : IsRelated m c r = subst (IsRelated m c) (the_same m c r' r ran' ran) h' in
    let heights = layout-AtLevel m c r in
    let drawn : (a : String)
        → Relative m c a
        → has_key m a ≡ true
        → has (ids (layout m c r).nodes) a ≡ true =
      λ a related known. ground (arith, has-ids-layout m c r a, (h.members a).1 related, known) in
    let related_x : Relative m c x = elim above [ inl same ↦ inl same | inr up ↦ inr (inl up) ] in
    let related_p : Relative m c p = elim above [
      | inl same ↦ inr (inl (Reach.one (subst (λ y. IsParent m y p) (sym same) next)))
      | inr up ↦ inr (inl (Reach.more up next))
    ] in
    let (n, found_n, n_x, at_n) =
      node_named_of_has {P = AtLevel m c r} (layout m c r).nodes x heights
        (drawn x related_x (has_key_of_get m x next.job next.found)) in
    let (k, found_k, k_p, at_k) =
      node_named_of_has {P = AtLevel m c r} (layout m c r).nodes p heights
        (drawn p related_p next.known) in
    (
      graph_of m c r,
      ground (arith, ran),
      n,
      k,
      found_n,
      found_k,
      at_n
          ∙ (next_row m c r _ _ (
                ap (level_of r.levels) n_x
                ∙ (rung ∙ ap (λ a. level_of r.levels a +ℤ pos 1) (sym k_p)))
              ∙ ap (λ y. y +ℤ pos level_height) (sym at_k)),
    )
