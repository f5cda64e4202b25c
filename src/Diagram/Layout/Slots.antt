-- ===== src/Diagram/Layout/Slots.antt =====
-- The two nested loops that place the jobs, as one pass over a list of slots.
use phan_tan_dkron_giuaky.Common.{
  ℕ, suc, ◌+◌, ◌*◌, ◌≡◌, refl, sym, ap, ◌∙◌, some, none, inl, inr, List, [], ◌∷◌, ◌++◌, String, ℤ,
  foldl, get, put, string_eq, Option-cases, arith,
}
use mathlib.Core.List.{append-nil, append_assoc}
use phan_tan_dkron_giuaky.Diagram.Defs.{DependencyNode, node_width, node_spacing}
use phan_tan_dkron_giuaky.Diagram.Layout.Place.{
  Point, Drawing, Frame, jobs_at, new_node, place_job, place_row, place_level, start_of, height_of,
}

pub record Slot : Type 0 where
  pub name : String
  pub level : ℤ
  pub point : Point

unfoldable pub place_slot : Frame → Drawing → Slot → Drawing
place_slot fr d s = place_job fr s.level s.point s.name d

unfoldable pub row_slots : ℤ → ℕ → ℤ → ℕ → List String → List Slot
row_slots level start_x y index [] = []
row_slots level start_x y index (name ∷ names) =
    record {
      name = name;
      level = level;
      point = record { x = start_x + index * (node_width + node_spacing); y = y };
    }
    ∷ row_slots level start_x y (suc index) names

unfoldable pub level_slots : Frame → ℤ → List Slot
level_slots fr level =
    let names = jobs_at fr.groups level in
    row_slots level (start_of fr names) (height_of fr level) 0 names

unfoldable pub slots : Frame → List ℤ → List Slot
slots fr [] = []
slots fr (l ∷ ls) = level_slots fr l ++ slots fr ls

foldl-append {ℓ κ} :
    {A : Type ℓ} {B : Type κ} (f : B → A → B) (b : B) (xs ys : List A)
    → foldl f b (xs ++ ys) ≡ foldl f (foldl f b xs) ys
foldl-append f b [] ys = refl
foldl-append f b (x ∷ xs) ys = foldl-append f (f b x) xs ys

place_row_slots :
    (fr : Frame) (level : ℤ) (start_x : ℕ) (y : ℤ) (index : ℕ) (names : List String) (d : Drawing)
    → place_row fr level start_x y index names d
      ≡ foldl (place_slot fr) d (row_slots level start_x y index names)
unfolding place_row row_slots place_slot
place_row_slots fr level start_x y index [] d = refl
place_row_slots fr level start_x y index (name ∷ names) d =
    place_row_slots fr level start_x y (suc index) names _

pub draw_slots :
    (fr : Frame) (levels : List ℤ) (d : Drawing)
    → foldl (place_level fr) d levels ≡ foldl (place_slot fr) d (slots fr levels)
unfolding slots level_slots place_level
draw_slots fr [] d = refl
draw_slots fr (l ∷ ls) d =
    draw_slots fr ls (place_level fr d l)
    ∙ ap (λ e. foldl (place_slot fr) e (slots fr ls))
        (place_row_slots fr l (start_of fr (jobs_at fr.groups l)) (height_of fr l) 0
          (jobs_at fr.groups l) d)
    ∙ sym (foldl-append (place_slot fr) d (level_slots fr l) (slots fr ls))

-- The node of a slot, if the job is known.
unfoldable pub slot_nodes : Frame → List Slot → List DependencyNode
slot_nodes fr [] = []
slot_nodes fr (s ∷ ss) = elim (get fr.jobs s.name) [
  | none ↦ slot_nodes fr ss
  | some job ↦ new_node fr s.level s.point s.name job ∷ slot_nodes fr ss
]

pub nodes_of_slots_from :
    (fr : Frame) (ss : List Slot) (d : Drawing)
    → (foldl (place_slot fr) d ss).nodes ≡ d.nodes ++ slot_nodes fr ss
unfolding slot_nodes place_slot place_job
nodes_of_slots_from fr [] d = sym (append-nil d.nodes)
nodes_of_slots_from fr (s ∷ ss) d = elim (Option-cases (get fr.jobs s.name)) [
  | inl unknown ↦ nodes_of_slots_from fr ss (place_slot fr d s) ∙ ground arith
  | inr (job, known) ↦
      nodes_of_slots_from fr ss (place_slot fr d s)
      ∙ ground (
        arith,
        append_assoc d.nodes (new_node fr s.level s.point s.name job ∷ []) (slot_nodes fr ss),
      )
]

unfoldable pub put_slot : List (String × Point) → Slot → List (String × Point)
put_slot ps s = put ps s.name s.point

pub positions_of_slots_from :
    (fr : Frame) (ss : List Slot) (d : Drawing)
    → (foldl (place_slot fr) d ss).positions ≡ foldl put_slot d.positions ss
unfolding place_slot place_job put_slot
positions_of_slots_from fr [] d = refl
positions_of_slots_from fr (s ∷ ss) d = positions_of_slots_from fr ss (place_slot fr d s)
