-- ===== src/Diagram/Layout/Apart.antt =====
-- The geometry of the slots: rows that do not touch, boxes that do not touch within a row, and all
-- of them inside the picture.
use phan_tan_dkron_giuaky.Common.{
  ℕ, suc, ◌+◌, ◌*◌, ◌≤◌, ◌≡◌, refl, ◌⊎◌, inl, List, [], ◌∷◌, ◌++◌, String, ℤ, pos, ◌+ℤ◌, ◌≤ℤ◌,
  length, All, All-append, All_of_all, Pairs, string_eq, arith,
}
use phan_tan_dkron_giuaky.Diagram.Defs.{node_width, node_spacing, level_height}
use phan_tan_dkron_giuaky.Diagram.Layout.Place.{Point}
use phan_tan_dkron_giuaky.Diagram.Layout.Slots.{row_slots}

-- The box at `p` stands to the left of the one at `q` with the spacing between them, or a whole
-- level above it.
abbrev pub Before : Point → Point → Type 0
Before p q = (p.x + node_width + node_spacing ≤ q.x) ⊎ (p.y +ℤ pos level_height ≤ℤ q.y)

-- The box at `p` lies between the left edge and `width`, and below the top margin.
abbrev pub Inside : ℕ → Point → Type 0
Inside width p = (p.x + node_width ≤ width) × (pos 30 ≤ℤ p.y)

pub Pairs-append {ℓ κ} :
    {A : Type ℓ} (R : A → A → Type κ) (xs ys : List A)
    → Pairs R xs
    → Pairs R ys
    → All (λ x. All (R x) ys) xs
    → Pairs R (xs ++ ys)
Pairs-append R [] ys h k c = k
Pairs-append R (x ∷ xs) ys h k c = (All-append (R x) xs ys h.0 c.0, Pairs-append R xs ys h.1 k c.1)

module _ (level : ℤ) (start_x : ℕ) (y : ℤ) where
  -- The slots of a row from `index` on.
  pub row_from :
      (index : ℕ) (names : List String)
      → All
          (λ s. (start_x + index * (node_width + node_spacing) ≤ s.point.x) × (s.point.y ≡ y))
          (row_slots level start_x y index names)
  unfolding row_slots
  row_from index [] = tt
  row_from index (n ∷ ns) = (
    (omega arith, refl),
    All_of_all _ _ (row_slots level start_x y (suc index) ns) (λ s h. (omega arith, h.1))
        (row_from (suc index) ns),
  )

  pub row_apart :
      (index : ℕ) (names : List String)
      → Pairs (λ s t. Before s.point t.point) (row_slots level start_x y index names)
  unfolding row_slots
  row_apart index [] = tt
  row_apart index (n ∷ ns) = (
    All_of_all _ _ (row_slots level start_x y (suc index) ns) (λ s h. inl (omega arith))
        (row_from (suc index) ns),
    row_apart (suc index) ns,
  )

  pub row_within :
      (width index : ℕ) (names : List String)
      → start_x + (index + length names) * (node_width + node_spacing) ≤ width + node_spacing
      → All (λ s. s.point.x + node_width ≤ width) (row_slots level start_x y index names)
  unfolding row_slots
  row_within width index [] h = tt
  row_within width index (n ∷ ns) h = (omega arith, row_within width (suc index) ns (omega arith))
