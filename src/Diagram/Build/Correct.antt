-- ===== src/Diagram/Build/Correct.antt =====
-- What `buildDependencyGraph` returns.
use phan_tan_dkron_giuaky.Common.{
  ◌≡◌, ap, true, ◌↔◌, inl, inr, some, List, [], String, has, get, has_key, has_key_of_get, Distinct,
  All, All_of_all, Pairs, string_eq, arith,
}
use phan_tan_dkron_giuaky.Diagram.Defs.{
  Job, JobMap, DependencyNode, DependencyEdge, IsParent, IsChild, Reach,
}
use phan_tan_dkron_giuaky.Diagram.Relatives.Walk.{job_map}
use phan_tan_dkron_giuaky.Diagram.Layout.Apart.{Before}
use phan_tan_dkron_giuaky.Diagram.Layout.Rows.{at}
use phan_tan_dkron_giuaky.Diagram.Layout.Nodes.{ids}
use phan_tan_dkron_giuaky.Diagram.Build.{Graph, Related, graph_of, layout, build_dependency_graph}
use phan_tan_dkron_giuaky.Diagram.Build.Relatives.{Relative, IsRelated, find_related_total}
use phan_tan_dkron_giuaky.Diagram.Build.Drawn.{
  apart, has-ids-layout, ids-Distinct-layout, nodes_at-layout, has_key-layout,
}
use phan_tan_dkron_giuaky.Diagram.Build.Edges.{
  joined, Names, Anchored, edges_of-Anchored, edges_iff, from_point, to_point,
}

-- The graph is built, from related jobs of which `IsRelated` tells.
pub built :
    (current : Job) (jobs : List Job)
    → (r : Related) × (build_dependency_graph current jobs
        ≡ some (graph_of (job_map jobs) current.name r))
      × IsRelated (job_map jobs) current.name r
unfolding build_dependency_graph
built current jobs =
    let (r, ran, h) = find_related_total (job_map jobs) current.name in (r, ground arith, h)

-- For every current job and list of jobs, also where parents or dependents form a cycle, the graph
-- is built; its nodes have distinct ids, and of two nodes the earlier stands at least a node's width
-- and the spacing to the left of the later, or at least the height of a level above it, so that no
-- two overlap.
pub build_dependency_graph_apart :
    (current : Job) (jobs : List Job)
    → (g : Graph) × (build_dependency_graph current jobs ≡ some g)
      × Distinct (ids g.nodes)
      × Pairs (λ m n. Before (at m) (at n)) g.nodes
unfolding graph_of
build_dependency_graph_apart current jobs =
    let (r, ran, h) = built current jobs in
    (
      graph_of (job_map jobs) current.name r,
      ran,
      ids-Distinct-layout (job_map jobs) current.name r h.once,
      apart (job_map jobs) current.name r,
    )

-- The graph is built, and it has a node with id `a` exactly when `a` is a known job that is the
-- current one, or is reached from it by steps to a known parent, or by steps to known dependents.
pub build_dependency_graph_nodes_iff :
    (current : Job) (jobs : List Job) (a : String)
    → (g : Graph) × (build_dependency_graph current jobs ≡ some g)
      × ((has (ids g.nodes) a ≡ true)
          ↔ (Relative (job_map jobs) current.name a × (has_key (job_map jobs) a ≡ true)))
unfolding graph_of
build_dependency_graph_nodes_iff current jobs a =
    let (r, ran, h) = built current jobs in
    (
      graph_of (job_map jobs) current.name r,
      ran,
      (
        λ k. (
          (h.members a).0 (ground (arith, has-ids-layout (job_map jobs) current.name r a)),
          ground (arith, has-ids-layout (job_map jobs) current.name r a),
        ),
        λ k. ground (arith, has-ids-layout (job_map jobs) current.name r a, (h.members a).1 k.0),
      ),
    )

module _ (m : JobMap) (current : String) where
  known_after :
      (Next : String → String → Type 0) {a b : String}
      → ((x y : String) → Next x y → has_key m y ≡ true)
      → Reach Next a b
      → has_key m b ≡ true
  known_after Next known (Reach.one s) = known _ _ s
  known_after Next known (Reach.more r s) = known _ _ s

  known_before :
      (Next : String → String → Type 0) {a b : String}
      → ((x y : String) → Next x y → has_key m x ≡ true)
      → Reach Next a b
      → has_key m a ≡ true
  known_before Next known (Reach.one s) = known _ _ s
  known_before Next known (Reach.more r s) = known_before Next known r

  -- Where the current job is known, so is each relative; else it has no relative but itself.
  Relative-known :
      (a : String) → Relative m current a → has_key m current ≡ true → has_key m a ≡ true
  Relative-known a (inl same) k = rw (← same) k
  Relative-known a (inr (inl r)) k = known_after (IsParent m) (λ x y s. s.known) r
  Relative-known a (inr (inr r)) k = known_after (IsChild m) (λ x y s. s.known) r

  Relative-knows :
      (a : String) → Relative m current a → has_key m a ≡ true → has_key m current ≡ true
  Relative-knows a (inl same) k = rw same k
  Relative-knows a (inr (inl r)) k =
      known_before (IsParent m) (λ x y s. has_key_of_get m x s.job s.found) r
  Relative-knows a (inr (inr r)) k =
      known_before (IsChild m) (λ x y s. has_key_of_get m x s.job s.found) r

-- The graph is built, and it has an edge from `p` to `c` exactly when both are among its nodes and
-- the job `c` names `p`, which is not the empty text, as its parent.
pub build_dependency_graph_edges_iff :
    (current : Job) (jobs : List Job) (p c : String)
    → (g : Graph) × (build_dependency_graph current jobs ≡ some g)
      × ((joined g.edges p c ≡ true) ↔ (
          Names (job_map jobs) c p × (has (ids g.nodes) p ≡ true) × (has (ids g.nodes) c ≡ true)))
unfolding graph_of
build_dependency_graph_edges_iff current jobs p c =
    let (r, ran, h) = built current jobs in
    let m = job_map jobs in
    let drawing = layout m current.name r in
    let edges = edges_iff m r.names drawing.positions p c in
    let has_p = has-ids-layout m current.name r p in
    let has_c = has-ids-layout m current.name r c in
    (
      graph_of m current.name r,
      ran,
      (
        λ k.
            let (related_c, e) = edges.0 k in
            let (names, related_p, from_key, to_key) = e in
            let known_c = has_key_of_get m c names.job names.found in
            let known = Relative-knows m current.name c ((h.members c).0 related_c) known_c in
            (
              names,
              ground
                  (arith, has_p, Relative-known m current.name p ((h.members p).0 related_p) known),
              ground (arith, has_c),
            ),
        λ k.
            let (names, node_p, node_c) = k in
            edges.1 (
              ground (arith, has_c),
              (
                names,
                ground (arith, has_p),
                ground (arith, has_p, has_key-layout m current.name r p),
                ground (arith, has_c, has_key-layout m current.name r c),
              ),
            ),
      ),
    )

-- The node `n` stands where the edge `e` begins, if it is the edge's first end, and where it ends,
-- if it is the second.
pub record Meets (e : DependencyEdge) (n : DependencyNode) : Type 0 where
  pub at_from : n.id ≡ e.from → at n ≡ from_point e
  pub at_to : n.id ≡ e.to → at n ≡ to_point e

-- The graph is built, and each of its edges begins and ends at the positions of the nodes that it
-- names.
pub build_dependency_graph-Meets :
    (current : Job) (jobs : List Job)
    → (g : Graph) × (build_dependency_graph current jobs ≡ some g)
      × All (λ e. All (Meets e) g.nodes) g.edges
unfolding graph_of
build_dependency_graph-Meets current jobs =
    let (r, ran, h) = built current jobs in
    let m = job_map jobs in
    let drawing = layout m current.name r in
    (
      graph_of m current.name r,
      ran,
      All_of_all (Anchored m r.names drawing.positions) _ _
          (λ e ends.
            All_of_all _ (Meets e) drawing.nodes
              (λ n here. record {
                at_from = λ same. ground (arith, ends.0, here, ap (get drawing.positions) same);
                at_to = λ same. ground (arith, ends.1, here, ap (get drawing.positions) same);
              })
              (nodes_at-layout m current.name r h.once))
          (edges_of-Anchored m r.names drawing.positions [] r.names tt),
    )
