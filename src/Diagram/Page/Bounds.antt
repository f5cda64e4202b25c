-- ===== src/Diagram/Page/Bounds.antt =====
-- The picture holds all that is drawn.
use phan_tan_dkron_giuaky.Common.{
  ℕ, ◌+◌, ◌≤◌, ◌≡◌, List, [], ◌∷◌, ℤ, pos, ◌+ℤ◌, ◌≤ℤ◌, int_laws, All, All_of_all, inl, inr,
  Bool-cases, length, units_of, take, length-take_of_le, length-append, ltb, some, arith,
}
use phan_tan_dkron_giuaky.Diagram.Defs.{Job, DependencyNode, node_width, node_height}
use phan_tan_dkron_giuaky.Diagram.View.{truncated_name}
use phan_tan_dkron_giuaky.Diagram.Build.{Graph, build_dependency_graph, graph_of, layout}
use phan_tan_dkron_giuaky.Diagram.Build.Drawn.{inside}
use phan_tan_dkron_giuaky.Diagram.Relatives.Walk.{job_map}
use phan_tan_dkron_giuaky.Diagram.Build.Correct.{built}
use phan_tan_dkron_giuaky.Diagram.Page.{max_x, max_y, max_ℤ, svg_width, svg_height, svg_padding}

-- The box of `n`, moved by the padding, with the caption below it and the padding on the right and
-- at the bottom, lies in a picture of width `w` and height `h`.
pub record Fits (w : ℕ) (h : ℤ) (n : DependencyNode) : Type 0 where
  pub top : pos 30 ≤ℤ n.y
  pub right : svg_padding + n.x + node_width + svg_padding ≤ w
  pub bottom : n.y +ℤ pos node_height +ℤ pos 30 +ℤ pos svg_padding ≤ℤ h

max_x-All : (ns : List DependencyNode) → All (λ n. n.x + node_width ≤ max_x ns) ns
unfolding max_x
max_x-All [] = tt
max_x-All (n ∷ ns) = (omega arith, All_of_all _ _ ns (λ k h. omega arith) (max_x-All ns))

max_ℤ_left : (a b : ℤ) → a ≤ℤ max_ℤ a b
max_ℤ_left a b = ground arith

max_ℤ_right : (a b : ℤ) → b ≤ℤ max_ℤ a b
max_ℤ_right a b = ground arith

max_y-All : (ns : List DependencyNode) → All (λ n. n.y +ℤ pos node_height +ℤ pos 30 ≤ℤ max_y ns) ns
unfolding max_y
max_y-All [] = tt
max_y-All (n ∷ ns) = (
  max_ℤ_left (n.y +ℤ pos node_height +ℤ pos 30) (max_y ns),
  All_of_all _ _ ns
      (λ k h. omega (arith, max_ℤ_right (n.y +ℤ pos node_height +ℤ pos 30) (max_y ns)))
      (max_y-All ns),
)

All-zip :
    (P Q R : DependencyNode → Type 0) (ns : List DependencyNode)
    → ((n : DependencyNode) → P n → Q n → R n)
    → All P ns
    → All Q ns
    → All R ns
All-zip P Q R [] f h k = tt
All-zip P Q R (n ∷ ns) f h k = (f n h.0 k.0, All-zip P Q R ns f h.1 k.1)

abbrev Drawn : ℕ → ℤ → DependencyNode → Type 0
Drawn w h n = (n.x + node_width ≤ w) × (n.y +ℤ pos node_height +ℤ pos 30 ≤ℤ h)

Fits-all :
    (ns : List DependencyNode)
    → All (λ n. pos 30 ≤ℤ n.y) ns
    → All (Fits (svg_width ns) (svg_height ns)) ns
unfolding svg_width svg_height
Fits-all ns tops =
    All-zip _ (Drawn (max_x ns) (max_y ns)) _ ns
      (λ n top box. record {
        top = top;
        right = omega (arith, box.0);
        bottom = omega (int_laws, box.1);
      })
      tops (All-zip _ _ _ ns (λ n x y. (x, y)) (max_x-All ns) (max_y-All ns))

-- For every current job and list of jobs the graph is built, and in the picture of the size that
-- the component computes from its nodes, each node, moved by the padding, keeps 30 pixels above it,
-- room for the caption below it, and the padding to the right and to the bottom.
pub build_dependency_graph-Fits :
    (current : Job) (jobs : List Job)
    → (g : Graph) × (build_dependency_graph current jobs ≡ some g)
      × All (Fits (svg_width g.nodes) (svg_height g.nodes)) g.nodes
unfolding graph_of
build_dependency_graph-Fits current jobs =
    let (r, ran, h) = built current jobs in
    let nodes = (layout (job_map jobs) current.name r).nodes in
    (
      graph_of (job_map jobs) current.name r,
      ran,
      Fits-all nodes (All_of_all _ _ nodes (λ n h. h.1) (inside (job_map jobs) current.name r)),
    )

-- The name that a node shows has at most 18 code units.
length-truncated_name : (s : List ℕ) → length (truncated_name s) ≤ 18
unfolding truncated_name units_of
length-truncated_name s = elim (Bool-cases (ltb 18 (length s))) [
  | inl long ↦
      rw (long, truncated_name)
        (omega (
          arith,
          length-append (take 15 s) (units_of "..."),
          length-take_of_le 15 s (ground arith),
        ))
  | inr short ↦ rw (short, truncated_name) (ground arith)
]
