-- ===== src/Diagram/Build/Order.antt =====
-- The rows: parents above the current job, dependents below it.
use mathlib.Core.Path.{subst₂}
use phan_tan_dkron_giuaky.Common.{
  ◌≡◌, refl, sym, ap, ◌∙◌, true, some, inl, inr, List, [], ◌∷◌, String, ℕ, suc, ℤ, pos, ◌+ℤ◌, ◌≤ℤ◌,
  ◌<ℤ◌, int_laws, has, get, All, All-append, All_of_all, ==_iff, string_eq, int_eq, Option-cases,
  arith,
}
use phan_tan_dkron_giuaky.Diagram.Defs.{
  Job, JobMap, DependencyNode, IsParent, IsChild, Reach, level_height,
}
use phan_tan_dkron_giuaky.Diagram.Relatives.Walk.{job_map}
use phan_tan_dkron_giuaky.Diagram.Layout.Place.{
  Frame, jobs_at, level_of, start_of, height_of, new_node, sorted_levels,
}
use phan_tan_dkron_giuaky.Diagram.Layout.Slots.{Slot, row_slots, level_slots, slots, slot_nodes}
use phan_tan_dkron_giuaky.Diagram.Layout.Groups.{groups, level_of-jobs_at}
use phan_tan_dkron_giuaky.Diagram.Build.{
  Graph, Related, graph_of, layout, frame_of, build_dependency_graph,
}
use phan_tan_dkron_giuaky.Diagram.Build.Drawn.{frame, all_slots, layout-nodes}
use phan_tan_dkron_giuaky.Diagram.Build.Correct.{built}

row_at :
    {a b a' b' : ℤ} → a ≡ a' → b ≡ b' → a' +ℤ pos level_height ≤ℤ b' → a +ℤ pos level_height ≤ℤ b
row_at p q h = subst₂ (λ x y. x +ℤ pos level_height ≤ℤ y) (sym p) (sym q) h

row_members :
    (l : ℤ) (x : ℕ) (y : ℤ) (i : ℕ) (ns : List String)
    → All (λ s. (s.level ≡ l) × (s.point.y ≡ y) × (has ns s.name ≡ true)) (row_slots l x y i ns)
unfolding row_slots has
row_members l x y i [] = tt
row_members l x y i (n ∷ ns) = (
  (refl, refl, ground (arith, ==_iff n n)),
  All_of_all _ _ (row_slots l x y (suc i) ns) (λ s h. (h.0, h.1, ground arith))
      (row_members l x y (suc i) ns),
)

module _ (m : JobMap) (current : String) (r : Related) where
  abbrev fr : Frame
  fr = frame m current r

  -- A node stands at the height of its job's level.
  abbrev pub AtLevel : DependencyNode → Type 0
  AtLevel n = n.y ≡ height_of fr (level_of r.levels n.id)

  slots_at_level :
      (ls : List ℤ) → All (λ s. s.point.y ≡ height_of fr (level_of r.levels s.name)) (slots fr ls)
  unfolding slots level_slots frame_of
  slots_at_level [] = tt
  slots_at_level (l ∷ ls) =
      All-append _ (level_slots fr l) (slots fr ls)
        (All_of_all _ _ (level_slots fr l)
          (λ s h. h.1 ∙ ap (height_of fr) (sym (level_of-jobs_at r.levels r.names l s.name h.2)))
          (row_members l (start_of fr (jobs_at fr.groups l)) (height_of fr l) 0
            (jobs_at fr.groups l)))
        (slots_at_level ls)

  nodes-AtLevel :
      (ss : List Slot)
      → All (λ s. s.point.y ≡ height_of fr (level_of r.levels s.name)) ss
      → All AtLevel (slot_nodes fr ss)
  unfolding slot_nodes new_node
  nodes-AtLevel [] h = tt
  nodes-AtLevel (s ∷ ss) h = elim (Option-cases (get fr.jobs s.name)) [
    | inl unknown ↦ rw (unknown, slot_nodes) (nodes-AtLevel ss h.1)
    | inr (job, known) ↦ rw (known, slot_nodes) (h.0, nodes-AtLevel ss h.1)
  ]

  pub layout-AtLevel : All AtLevel (layout m current r).nodes
  layout-AtLevel = rw layout-nodes (
      nodes-AtLevel (all_slots m current r)
        (slots_at_level (sorted_levels (groups r.levels r.names))))

  at_middle :
      (c : DependencyNode)
      → AtLevel c
      → c.id ≡ current
      → level_of r.levels current ≡ pos 0
      → c.y ≡ height_of fr (pos 0)
  at_middle c at_c same middle = at_c ∙ ap (height_of fr) (ap (level_of r.levels) same ∙ middle)

  lower_row : (l k : ℤ) → l <ℤ k → height_of fr l +ℤ pos level_height ≤ℤ height_of fr k
  unfolding height_of
  lower_row l k h = omega int_laws

-- Beside the node `c` of the current job, the node `n` stands at least one row lower if its job is
-- reached by dependents, and at least one row higher if it is reached by parents alone.
pub record Rows (m : JobMap) (current : String) (c n : DependencyNode) : Type 0 where
  pub lower : c.id ≡ current → Reach (IsChild m) current n.id → c.y +ℤ pos level_height ≤ℤ n.y
  pub upper :
      c.id ≡ current
      → Reach (IsParent m) current n.id
      → ¬ Reach (IsChild m) current n.id
      → n.y +ℤ pos level_height ≤ℤ c.y

-- Where the current job is neither its own ancestor nor its own descendant, the graph is built, and
-- beside the node of the current job, each job reached by dependents stands at least one row lower,
-- and each job reached by parents and not by dependents at least one row higher.
pub build_dependency_graph_rows :
    (current : Job) (jobs : List Job)
    → ¬ Reach (IsParent (job_map jobs)) current.name current.name
    → ¬ Reach (IsChild (job_map jobs)) current.name current.name
    → (g : Graph) × (build_dependency_graph current jobs ≡ some g)
      × All (λ c. All (Rows (job_map jobs) current.name c) g.nodes) g.nodes
unfolding graph_of
build_dependency_graph_rows current jobs no_parent no_child =
    let (r, ran, h) = built current jobs in
    let m = job_map jobs in
    let nodes = (layout m current.name r).nodes in
    let heights = layout-AtLevel m current.name r in
    let middle = h.middle no_parent no_child in
    (
      graph_of m current.name r,
      ran,
      All_of_all _ _ nodes
          (λ c at_c.
            All_of_all _ (Rows m current.name c) nodes
              (λ n at_n. record {
                lower = λ same reach.
                    row_at (at_middle m current.name r c at_c same middle) at_n
                      (lower_row m current.name r (pos 0) _ (h.lower n.id reach));
                upper = λ same reach no_reach.
                    row_at at_n (at_middle m current.name r c at_c same middle)
                      (lower_row m current.name r _ (pos 0) (h.upper n.id reach no_reach));
              })
              heights)
          heights,
    )
