-- ===== src/Diagram/View.antt =====
-- `dkron/ui/src/jobs/JobDependencyDiagram.tsx`: `getStatusColor`, `DiagramNode` and
-- `DiagramEdge`, lines 83 to 199.
use phan_tan_dkron_giuaky.Common.{
  ℕ, ◌+◌, ◌-◌, ◌/◌, Option, some, none, List, [], ◌∷◌, ◌++◌, String, ℤ, pos, ◌+ℤ◌, ◌==◌, string_eq,
  if◌then◌else◌, ltb, length, Element, Attr, el, text, prop, on, str, num, units, kids, said, box,
  shown_if, all_of, Elements, units_of, take,
}
use phan_tan_dkron_giuaky.Diagram.Defs.{DependencyNode, DependencyEdge, node_width, node_height}

-- What the handlers of the diagram do.
pub data Action : Type 0 where
  -- `redirect('show', 'jobs', jobId)`
  show_job : String → Action

unfoldable pub get_status_color : String → String
get_status_color status =
    if status == "success"
    then "#22c55e"
    else if status == "failed"
    then "#ef4444"
    else if status == "running"
    then "#f59e0b"
    else "#94a3b8"

-- `displayName.length > 18 ? displayName.substring(0, 15) + '...' : displayName`
unfoldable pub truncated_name : List ℕ → List ℕ
truncated_name s = if ltb 18 (length s) then take 15 s ++ units_of "..." else s

-- `node.displayName || node.name`, and `node.status || 'untriggered'`
unfoldable pub text_or : String → String → String
text_or s d = if s == "" then d else s

-- `onClick={() => onClick && !node.isCurrent && onClick(node.id)}`, where `onClick` is given.
unfoldable pub node_click : DependencyNode → Option Action
node_click node = if node.is_current then none else some (show_job node.id)

-- The translation of the group of a node: `translate(x, y)`.
abbrev pub translate : ℕ → ℤ → List (Attr (Option Action))
translate x y = prop "translate-x" (num (pos x)) ∷ prop "translate-y" (num y) ∷ []

unfoldable pub node_background : DependencyNode → Element (Option Action)
node_background node =
    el "rect"
      (prop "x" (num (pos 0))
        ∷ prop "y" (num (pos 0))
        ∷ prop "width" (num (pos node_width))
        ∷ prop "height" (num (pos node_height))
        ∷ prop "fill" (str (if node.is_current then "#1a365d" else "#ffffff"))
        ∷ prop "stroke" (str (if node.is_current then "#1a365d" else "#e2e8f0"))
        ∷ prop "strokeWidth" (num (if node.is_current then pos 3 else pos 2))
        ∷ [])
      (kids [])

unfoldable pub node_status_line : DependencyNode → Element (Option Action)
unfolding get_status_color
node_status_line node =
    el "rect"
      (prop "x" (num (pos 0))
        ∷ prop "y" (num (pos 0))
        ∷ prop "width" (num (pos 4))
        ∷ prop "height" (num (pos node_height))
        ∷ prop "fill" (str (get_status_color node.status))
        ∷ [])
      (kids [])

unfoldable pub node_texts : DependencyNode → Elements (Option Action)
unfolding text_or truncated_name
node_texts node =
    let display_name = text_or node.display_name node.name in
    all_of (
      kids (
        el "text"
          (prop "x" (num (pos (node_width / 2)))
            ∷ prop "y" (num (pos (node_height / 2 - 8)))
            ∷ prop "fill" (str (if node.is_current then "#ffffff" else "#1a365d"))
            ∷ [])
          (kids (
            box "title" (said display_name ∷ [])
            ∷ text (units (truncated_name (units_of display_name)))
            ∷ []))
        ∷ el "text"
            (prop "x" (num (pos (node_width / 2)))
              ∷ prop "y" (num (pos (node_height / 2 + 12)))
              ∷ prop "fill" (str (if node.is_current then "#94a3b8" else "#64748b"))
              ∷ [])
            (kids (said (text_or node.status "untriggered") ∷ []))
        ∷ [])
      ∷ shown_if node.is_current (
          el "text"
            (prop "x" (num (pos (node_width / 2))) ∷ prop "y" (num (pos (node_height + 18))) ∷ [])
            (kids (said "(current job)" ∷ [])))
      ∷ [])

unfoldable pub diagram_node : DependencyNode → Element (Option Action)
unfolding node_background node_status_line node_texts node_click
diagram_node node =
    el "g" (translate node.x node.y ++ on "onClick" (node_click node) ∷ [])
      (all_of (kids (node_background node ∷ node_status_line node ∷ []) ∷ node_texts node ∷ []))

-- The curve of an edge. `midY` is half of `mid_y_twice`.
pub record Curve : Type 0 where
  pub start_x : ℕ
  pub start_y : ℤ
  pub end_x : ℕ
  pub end_y : ℤ
  pub mid_y_twice : ℤ

unfoldable pub diagram_edge : DependencyEdge → Curve
diagram_edge edge = record {
  start_x = edge.from_x + node_width / 2;
  start_y = edge.from_y +ℤ pos node_height;
  end_x = edge.to_x + node_width / 2;
  end_y = edge.to_y;
  mid_y_twice = edge.from_y +ℤ pos node_height +ℤ edge.to_y;
}
