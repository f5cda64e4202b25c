-- ===== src/Diagram/Layout/Nodes.antt =====
-- The positions and the nodes that the slots leave: one position for each name, one node for each
-- known name, both the same.
use phan_tan_dkron_giuaky.Common.{
  ◌≡◌, refl, ap, ◌∙◌, false, ◌&&◌, ◌||◌, some, inl, inr, List, [], ◌∷◌, ◌++◌, String, ℤ, ℕ, suc,
  foldl, has, get, get-put, has-keys-put, has_key, has_key_of_get, has_key_of_get-none, Distinct,
  All, ==_iff, string_eq, Option-cases, arith,
}
use phan_tan_dkron_giuaky.Diagram.Defs.{DependencyNode}
use phan_tan_dkron_giuaky.Diagram.Layout.Place.{
  Frame, Point, jobs_at, new_node, start_of, height_of,
}
use phan_tan_dkron_giuaky.Diagram.Layout.Slots.{
  Slot, row_slots, level_slots, slots, slot_nodes, put_slot,
}
use phan_tan_dkron_giuaky.Diagram.Layout.Groups.{row_names}
use phan_tan_dkron_giuaky.Diagram.Layout.Rows.{at}

abbrev pub names_of : List Slot → List String
names_of [] = []
names_of (s ∷ ss) = s.name ∷ names_of ss

names_of-append : (ss ts : List Slot) → names_of (ss ++ ts) ≡ names_of ss ++ names_of ts
names_of-append [] ts = refl
names_of-append (s ∷ ss) ts = ap (s.name ∷◌) (names_of-append ss ts)

names_of-row_slots :
    (l : ℤ) (x : ℕ) (y : ℤ) (i : ℕ) (ns : List String) → names_of (row_slots l x y i ns) ≡ ns
unfolding row_slots
names_of-row_slots l x y i [] = refl
names_of-row_slots l x y i (n ∷ ns) = ap (n ∷◌) (names_of-row_slots l x y (suc i) ns)

pub names_of-slots : (fr : Frame) (ls : List ℤ) → names_of (slots fr ls) ≡ row_names fr.groups ls
unfolding slots level_slots row_names
names_of-slots fr [] = refl
names_of-slots fr (l ∷ ls) =
    names_of-append (level_slots fr l) (slots fr ls)
    ∙ cc (
      names_of-row_slots l (start_of fr (jobs_at fr.groups l)) (height_of fr l) 0
          (jobs_at fr.groups l),
      names_of-slots fr ls,
    )

-- A name that no slot has keeps its position.
get-put_slot_other :
    (ps : List (String × Point)) (ss : List Slot) (n : String)
    → has (names_of ss) n ≡ false
    → get (foldl put_slot ps ss) n ≡ get ps n
unfolding put_slot has
get-put_slot_other ps [] n h = refl
get-put_slot_other ps (s ∷ ss) n h =
    get-put_slot_other (put_slot ps s) ss n (ground arith)
    ∙ ground (arith, get-put ps s.name n s.point)

-- Each slot's name has the slot's position.
pub get-put_slot :
    (ps : List (String × Point)) (ss : List Slot)
    → Distinct (names_of ss)
    → All (λ s. get (foldl put_slot ps ss) s.name ≡ some s.point) ss
unfolding put_slot
get-put_slot ps [] h = tt
get-put_slot ps (s ∷ ss) h = (
  get-put_slot_other (put_slot ps s) ss s.name h.0
      ∙ ground (arith, get-put ps s.name s.name s.point, ==_iff s.name s.name),
  get-put_slot (put_slot ps s) ss h.1,
)

pub has_key-put_slot :
    (ps : List (String × Point)) (ss : List Slot) (n : String)
    → has_key (foldl put_slot ps ss) n ≡ (has (names_of ss) n || has_key ps n)
unfolding put_slot has has_key
has_key-put_slot ps [] n = refl
has_key-put_slot ps (s ∷ ss) n =
    has_key-put_slot (put_slot ps s) ss n ∙ ground (arith, has-keys-put ps s.name n s.point)

abbrev pub ids : List DependencyNode → List String
ids [] = []
ids (n ∷ ns) = n.id ∷ ids ns

module _ (fr : Frame) where
  -- The nodes are those of the known names.
  pub has-ids :
      (ss : List Slot) (a : String)
      → has (ids (slot_nodes fr ss)) a ≡ (has (names_of ss) a && has_key fr.jobs a)
  unfolding has slot_nodes new_node
  has-ids [] a = refl
  has-ids (s ∷ ss) a = elim (Option-cases (get fr.jobs s.name)) [
    | inl unknown ↦
        ground (arith, ==_iff s.name a, has-ids ss a, has_key_of_get-none fr.jobs s.name unknown)
    | inr (job, known) ↦
        ground (arith, ==_iff s.name a, has-ids ss a, has_key_of_get fr.jobs s.name job known)
  ]

  pub ids-Distinct : (ss : List Slot) → Distinct (names_of ss) → Distinct (ids (slot_nodes fr ss))
  unfolding slot_nodes new_node
  ids-Distinct [] h = tt
  ids-Distinct (s ∷ ss) h = elim (Option-cases (get fr.jobs s.name)) [
    | inl unknown ↦ rw (unknown, slot_nodes) (ids-Distinct ss h.1)
    | inr (job, known) ↦
        rw (known, slot_nodes) (ground (arith, has-ids ss s.name), ids-Distinct ss h.1)
  ]

  -- What holds of the points by name holds of the nodes.
  pub nodes_at :
      (ps : List (String × Point)) (ss : List Slot)
      → All (λ s. get ps s.name ≡ some s.point) ss
      → All (λ n. get ps n.id ≡ some (at n)) (slot_nodes fr ss)
  unfolding slot_nodes new_node
  nodes_at ps [] h = tt
  nodes_at ps (s ∷ ss) h = elim (Option-cases (get fr.jobs s.name)) [
    | inl unknown ↦ rw (unknown, slot_nodes) (nodes_at ps ss h.1)
    | inr (job, known) ↦ rw (known, slot_nodes) (h.0, nodes_at ps ss h.1)
  ]
