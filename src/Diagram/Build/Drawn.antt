-- ===== src/Diagram/Build/Drawn.antt =====
-- What `layout` draws for related jobs: the slots, their positions and their nodes.
use phan_tan_dkron_giuaky.Common.{
  ◌≡◌, refl, sym, ap, ◌∙◌, ◌&&◌, some, List, [], ◌∷◌, String, ℤ, foldl, has, get, has_key, Distinct,
  All, Pairs, ◌<ℤ◌, ◌≤ℤ◌, sort_levels-Ascending, Ascending-strict, string_eq, subst, arith,
}
use phan_tan_dkron_giuaky.Diagram.Defs.{JobMap}
use phan_tan_dkron_giuaky.Diagram.Layout.Place.{
  Frame, Groups, Drawing, blank, sorted_levels, min_level,
}
use phan_tan_dkron_giuaky.Diagram.Layout.Slots.{
  Slot, slots, slot_nodes, draw_slots, put_slot, nodes_of_slots_from, positions_of_slots_from,
}
use phan_tan_dkron_giuaky.Diagram.Layout.Apart.{Before, Inside}
use phan_tan_dkron_giuaky.Diagram.Layout.Rows.{
  at, widest-All, slots_apart, slots-Inside, nodes-All, nodes-Pairs,
}
use phan_tan_dkron_giuaky.Diagram.Layout.Groups.{
  groups, sorted-Distinct, has-row_names, row_names_once,
}
use phan_tan_dkron_giuaky.Diagram.Layout.Nodes.{
  names_of, names_of-slots, get-put_slot, has_key-put_slot, ids, has-ids, ids-Distinct, nodes_at,
}
use phan_tan_dkron_giuaky.Diagram.Build.{Related, frame_of, layout}

min_level-All : (ls : List ℤ) → Pairs ◌≤ℤ◌ ls → All (min_level ls ≤ℤ◌) ls
unfolding min_level
min_level-All [] h = tt
min_level-All (l ∷ ls) h = (omega arith, h.0)

module _ (m : JobMap) (current : String) (r : Related) where
  abbrev gs : Groups
  gs = groups r.levels r.names

  -- The constants of the loop, and its slots.
  abbrev pub frame : Frame
  frame = frame_of m current gs

  abbrev pub all_slots : List Slot
  all_slots = slots frame (sorted_levels gs)

  frame-groups : frame.groups ≡ gs
  unfolding frame_of
  frame-groups = refl

  pub layout-nodes : (layout m current r).nodes ≡ slot_nodes frame all_slots
  unfolding layout
  layout-nodes =
      ap (λ (d : Drawing). d.nodes) (draw_slots frame (sorted_levels gs) blank)
      ∙ nodes_of_slots_from frame all_slots blank

  pub layout-positions : (layout m current r).positions ≡ foldl put_slot [] all_slots
  unfolding layout
  layout-positions =
      ap (λ (d : Drawing). d.positions) (draw_slots frame (sorted_levels gs) blank)
      ∙ positions_of_slots_from frame all_slots blank

  sorted-strict : Pairs ◌<ℤ◌ (sorted_levels gs)
  unfolding sorted_levels
  sorted-strict =
      Ascending-strict (sorted_levels gs) (sort_levels-Ascending _)
        (sorted-Distinct r.levels r.names)

  -- No two boxes touch.
  pub apart : Pairs (λ m n. Before (at m) (at n)) (layout m current r).nodes
  apart =
      rw layout-nodes
        (nodes-Pairs frame Before all_slots (slots_apart frame (sorted_levels gs) sorted-strict))

  -- All boxes are inside the picture.
  pub inside : All (λ n. Inside (frame.max_width) (at n)) (layout m current r).nodes
  unfolding frame_of sorted_levels
  inside = rw layout-nodes (
      nodes-All frame (Inside frame.max_width) all_slots (
        slots-Inside frame (sorted_levels gs) (widest-All gs 0 (sorted_levels gs))
          (min_level-All (sorted_levels gs) (sort_levels-Ascending _))))

  slot_names : (a : String) → has (names_of all_slots) a ≡ has r.names a
  unfolding frame_of
  slot_names a =
      ap (λ ns. has ns a) (names_of-slots frame (sorted_levels gs))
      ∙ has-row_names r.levels r.names a

  slot_names_once : Distinct r.names → Distinct (names_of all_slots)
  unfolding frame_of
  slot_names_once h =
      subst Distinct (sym (names_of-slots frame (sorted_levels gs)))
        (row_names_once r.levels r.names h)

  -- One node for each related job that is known.
  pub has-ids-layout :
      (a : String) → has (ids (layout m current r).nodes) a ≡ (has r.names a && has_key m a)
  unfolding frame_of
  has-ids-layout a =
      ap (λ ns. has (ids ns) a) layout-nodes
      ∙ (has-ids frame all_slots a ∙ ap (λ b. b && has_key m a) (slot_names a))

  pub ids-Distinct-layout : Distinct r.names → Distinct (ids (layout m current r).nodes)
  ids-Distinct-layout h = rw layout-nodes (ids-Distinct frame all_slots (slot_names_once h))

  -- Each node stands at the position recorded for its name.
  pub nodes_at-layout :
      Distinct r.names
      → All (λ n. get (layout m current r).positions n.id ≡ some (at n)) (layout m current r).nodes
  nodes_at-layout h =
      rw (layout-nodes, layout-positions)
        (nodes_at frame (foldl put_slot [] all_slots) all_slots
          (get-put_slot [] all_slots (slot_names_once h)))

  -- Each related job has a position.
  pub has_key-layout : (a : String) → has_key (layout m current r).positions a ≡ has r.names a
  has_key-layout a =
      rw layout-positions
        (has_key-put_slot [] all_slots a ∙ unfold has has_key in ground (arith, slot_names a))
