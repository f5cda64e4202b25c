-- ===== src/Diagram/Layout/Rows.antt =====
-- All the rows together: no two boxes touch, and all are inside the picture.
use phan_tan_dkron_giuaky.Common.{
  ℕ, ◌+◌, ◌≤◌, ◌≡◌, inl, inr, max, List, [], ◌∷◌, ℤ, pos, ◌+ℤ◌, ◌≤ℤ◌, ◌<ℤ◌, int_laws, All,
  All-append, All_of_all, Pairs, get, string_eq, Option-cases, arith,
}
use phan_tan_dkron_giuaky.Diagram.Defs.{DependencyNode, node_width, level_height}
use phan_tan_dkron_giuaky.Diagram.Layout.Place.{
  Frame, Groups, Point, jobs_at, row_width, widest, start_of, height_of, new_node,
}
use phan_tan_dkron_giuaky.Diagram.Layout.Slots.{Slot, level_slots, slots, slot_nodes}
use phan_tan_dkron_giuaky.Diagram.Layout.Apart.{
  Before, Inside, Pairs-append, row_from, row_apart, row_within,
}

-- `maxWidth` is at least the width of each row.
widest-ge : (groups : Groups) (width : ℕ) (levels : List ℤ) → width ≤ widest groups width levels
unfolding widest
widest-ge groups width [] = omega arith
widest-ge groups width (l ∷ ls) =
    omega (arith, widest-ge groups (max width (row_width (jobs_at groups l))) ls)

pub widest-All :
    (groups : Groups) (width : ℕ) (levels : List ℤ)
    → All (λ l. row_width (jobs_at groups l) ≤ widest groups width levels) levels
unfolding widest
widest-All groups width [] = tt
widest-All groups width (l ∷ ls) = (
  omega (arith, widest-ge groups (max width (row_width (jobs_at groups l))) ls),
  widest-All groups (max width (row_width (jobs_at groups l))) ls,
)

-- Where a node stands.
abbrev pub at : DependencyNode → Point
at n = record { x = n.x; y = n.y }

module _ (fr : Frame) where
  height_step : (l k : ℤ) → l <ℤ k → height_of fr l +ℤ pos level_height ≤ℤ height_of fr k
  unfolding height_of
  height_step l k h = omega int_laws

  height_from : (l : ℤ) → fr.min_level ≤ℤ l → pos 30 ≤ℤ height_of fr l
  unfolding height_of
  height_from l h = omega int_laws

  level_heights : (l : ℤ) → All (λ s. s.point.y ≡ height_of fr l) (level_slots fr l)
  unfolding level_slots
  level_heights l =
      All_of_all _ _ (level_slots fr l) (λ s h. h.1)
        (row_from l (start_of fr (jobs_at fr.groups l)) (height_of fr l) 0 (jobs_at fr.groups l))

  below :
      (l : ℤ) (ls : List ℤ)
      → All (l <ℤ◌) ls
      → All (λ s. height_of fr l +ℤ pos level_height ≤ℤ s.point.y) (slots fr ls)
  unfolding slots
  below l [] h = tt
  below l (k ∷ ks) h =
      All-append _ (level_slots fr k) (slots fr ks)
        (All_of_all _ _ (level_slots fr k) (λ s e. rw e (height_step l k h.0)) (level_heights k))
        (below l ks h.1)

  pub slots_apart :
      (levels : List ℤ)
      → Pairs ◌<ℤ◌ levels
      → Pairs (λ s t. Before s.point t.point) (slots fr levels)
  unfolding slots level_slots
  slots_apart [] h = tt
  slots_apart (l ∷ ls) h =
      Pairs-append _ (level_slots fr l) (slots fr ls)
        (row_apart l (start_of fr (jobs_at fr.groups l)) (height_of fr l) 0 (jobs_at fr.groups l))
        (slots_apart ls h.1)
        (All_of_all _ _ (level_slots fr l)
          (λ s e. All_of_all _ _ (slots fr ls) (λ t b. inr (rw e b)) (below l ls h.0))
          (level_heights l))

  row_inside :
      (l : ℤ)
      → row_width (jobs_at fr.groups l) ≤ fr.max_width
      → All (λ s. s.point.x + node_width ≤ fr.max_width) (level_slots fr l)
  unfolding level_slots start_of row_width
  row_inside l h =
      row_within l (start_of fr (jobs_at fr.groups l)) (height_of fr l) fr.max_width 0
        (jobs_at fr.groups l) (omega arith)

  All-both :
      {A : Type 0} (P Q : A → Type 0) (xs : List A) → All P xs → All Q xs → All (λ x. P x × Q x) xs
  All-both P Q [] h k = tt
  All-both P Q (x ∷ xs) h k = ((h.0, k.0), All-both P Q xs h.1 k.1)

  pub slots-Inside :
      (levels : List ℤ)
      → All (λ l. row_width (jobs_at fr.groups l) ≤ fr.max_width) levels
      → All (fr.min_level ≤ℤ◌) levels
      → All (λ s. Inside fr.max_width s.point) (slots fr levels)
  unfolding slots
  slots-Inside [] h k = tt
  slots-Inside (l ∷ ls) h k =
      All-append _ (level_slots fr l) (slots fr ls)
        (All-both _ _ (level_slots fr l) (row_inside l h.0)
          (All_of_all _ _ (level_slots fr l) (λ s e. rw e (height_from l k.0)) (level_heights l)))
        (slots-Inside ls h.1 k.1)

  -- A property of the points of slots is one of the points of their nodes.
  pub nodes-All :
      (P : Point → Type 0) (ss : List Slot)
      → All (λ s. P s.point) ss
      → All (λ n. P (at n)) (slot_nodes fr ss)
  unfolding slot_nodes new_node
  nodes-All P [] h = tt
  nodes-All P (s ∷ ss) h = elim (Option-cases (get fr.jobs s.name)) [
    | inl unknown ↦ rw (unknown, slot_nodes) (nodes-All P ss h.1)
    | inr (job, known) ↦ rw (known, slot_nodes) (h.0, nodes-All P ss h.1)
  ]

  pub nodes-Pairs :
      (R : Point → Point → Type 0) (ss : List Slot)
      → Pairs (λ s t. R s.point t.point) ss
      → Pairs (λ m n. R (at m) (at n)) (slot_nodes fr ss)
  unfolding slot_nodes new_node
  nodes-Pairs R [] h = tt
  nodes-Pairs R (s ∷ ss) h = elim (Option-cases (get fr.jobs s.name)) [
    | inl unknown ↦ rw (unknown, slot_nodes) (nodes-Pairs R ss h.1)
    | inr (job, known) ↦ rw (known, slot_nodes) (nodes-All (R s.point) ss h.0, nodes-Pairs R ss h.1)
  ]
