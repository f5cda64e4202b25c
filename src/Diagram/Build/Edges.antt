-- ===== src/Diagram/Build/Edges.antt =====
-- The edges that `edges_of` collects.
use phan_tan_dkron_giuaky.Common.{
  ◌≡◌, refl, ap, ◌∙◌, true, false, Bool, ◌&&◌, ◌||◌, ◌↔◌, ◌⊎◌, inl, inr, some, List, [], ◌∷◌, ◌++◌,
  String, has, get, has_key, has_key_of_get, get_of_has_key, All, All-append, ◌==◌, ==_iff,
  string_eq, Bool-cases, Option-cases, subst, arith,
}
use phan_tan_dkron_giuaky.Diagram.Defs.{Job, JobMap, DependencyEdge, truthy}
use phan_tan_dkron_giuaky.Diagram.Layout.Place.{Point, edge_of, edges_of}

-- Some edge leads from `p` to `c`.
pub joined : List DependencyEdge → String → String → Bool
joined [] p c = false
joined (e ∷ es) p c = (e.from == p && e.to == c) || joined es p c

joined-append :
    (xs ys : List DependencyEdge) (p c : String)
    → joined (xs ++ ys) p c ≡ (joined xs p c || joined ys p c)
unfolding joined
joined-append [] ys p c = refl
joined-append (x ∷ xs) ys p c = ground (arith, joined-append xs ys p c)

-- The known job `c` names `p` as its parent.
pub record Names (m : JobMap) (c p : String) : Type 0 where
  pub job : Job
  pub found : get m c ≡ some job
  pub named : job.parent_job ≡ some p
  pub nonempty : truthy p ≡ true

abbrev pub from_point : DependencyEdge → Point
from_point e = record { x = e.from_x; y = e.from_y }

abbrev pub to_point : DependencyEdge → Point
to_point e = record { x = e.to_x; y = e.to_y }

abbrev edge : String → String → Point → Point → DependencyEdge
edge p n a b = record { from = p; to = n; from_x = a.x; from_y = a.y; to_x = b.x; to_y = b.y }

module _ (m : JobMap) (related : List String) (ps : List (String × Point)) where
  -- The one edge to `n`.
  record EdgeTo (n : String) : Type 0 where
    parent : String
    from_pos : Point
    to_pos : Point
    names : Names m n parent
    near : has related parent ≡ true
    from_at : get ps parent ≡ some from_pos
    to_at : get ps n ≡ some to_pos
    one_edge : edge_of m related ps n ≡ edge parent n from_pos to_pos ∷ []

  one_edge_of :
      (n p : String) (a b : Point)
      → Names m n p
      → has related p ≡ true
      → get ps p ≡ some a
      → get ps n ≡ some b
      → edge_of m related ps n ≡ edge p n a b ∷ []
  unfolding edge_of
  one_edge_of n p a b names near h k = ground arith

  no_edge_of :
      (n : String) (job : Job) (p : String)
      → get m n ≡ some job
      → job.parent_job ≡ some p
      → (truthy p && has related p) ≡ false
      → edge_of m related ps n ≡ []
  unfolding edge_of
  no_edge_of n job p found named h = ground arith

  edge_of-cases : (n : String) → (edge_of m related ps n ≡ []) ⊎ EdgeTo n
  edge_of-cases n = elim (Option-cases (get m n)) [
    | inl unknown ↦ inl (unfold edge_of in ground arith)
    | inr (job, found) ↦ elim (Option-cases job.parent_job) [
      | inl orphan ↦ inl (unfold edge_of in ground arith)
      | inr (p, named) ↦ elim (Bool-cases (truthy p && has related p)) [
        | inr far ↦ inl (no_edge_of n job p found named far)
        | inl near ↦
            let names : Names m n p = record {
              job = job;
              found = found;
              named = named;
              nonempty = ground arith;
            } in
            elim (Option-cases (get ps p)) [
              | inl nowhere ↦ inl (unfold edge_of in ground arith)
              | inr (a, from_at) ↦ elim (Option-cases (get ps n)) [
                | inl nowhere ↦ inl (unfold edge_of in ground arith)
                | inr (b, to_at) ↦ inr (record {
                  parent = p;
                  from_pos = a;
                  to_pos = b;
                  names = names;
                  near = ground arith;
                  from_at = from_at;
                  to_at = to_at;
                  one_edge = one_edge_of n p a b names (ground arith) from_at to_at;
                })
              ]
            ]
      ]
    ]
  ]

  -- The ends of an edge stand at the positions of their names.
  abbrev pub Anchored : DependencyEdge → Type 0
  Anchored e = (get ps e.from ≡ some (from_point e)) × (get ps e.to ≡ some (to_point e))

  edge_of-Anchored : (n : String) → All Anchored (edge_of m related ps n)
  edge_of-Anchored n = elim (edge_of-cases n) [
    | inl nothing ↦ rw nothing tt
    | inr e ↦ rw (e.one_edge) ((e.from_at, e.to_at), tt)
  ]

  pub edges_of-Anchored :
      (es : List DependencyEdge) (ns : List String)
      → All Anchored es
      → All Anchored (edges_of m related ps es ns)
  unfolding edges_of
  edges_of-Anchored es [] h = h
  edges_of-Anchored es (n ∷ ns) h =
      edges_of-Anchored (es ++ edge_of m related ps n) ns
        (All-append Anchored es (edge_of m related ps n) h (edge_of-Anchored n))

  -- An edge from `p` to `c` among those of `n`.
  abbrev pub Edge : String → String → Type 0
  Edge p c = Names m c p × (has related p ≡ true) × (has_key ps p ≡ true) × (has_key ps c ≡ true)

  joined-edge_of :
      (n p c : String) → joined (edge_of m related ps n) p c ≡ true → (n ≡ c) × Edge p c
  unfolding joined
  joined-edge_of n p c h = elim (edge_of-cases n) [
    | inl nothing ↦ cc (ap (λ es. joined es p c) nothing)
    | inr e ↦
        let same : (e.parent ≡ p) × (n ≡ c) =
          ground (arith, ap (λ es. joined es p c) e.one_edge, ==_iff e.parent p, ==_iff n c) in
        (
          same.1,
          subst (λ x. Edge x c) same.0
              (subst (Edge e.parent) same.1 (
                e.names,
                e.near,
                has_key_of_get ps e.parent e.from_pos e.from_at,
                has_key_of_get ps n e.to_pos e.to_at,
              )),
        )
  ]

  edge_of-joined : (p c : String) → Edge p c → joined (edge_of m related ps c) p c ≡ true
  unfolding joined
  edge_of-joined p c (names, near, from_key, to_key) =
      let (a, from_at) = get_of_has_key ps p from_key in
      let (b, to_at) = get_of_has_key ps c to_key in
      ap (λ es. joined es p c) (one_edge_of c p a b names near from_at to_at)
      ∙ ground (arith, ==_iff p p, ==_iff c c)

  joined-edges_of :
      (es : List DependencyEdge) (ns : List String) (p c : String)
      → joined (edges_of m related ps es ns) p c ≡ true
      → (joined es p c ≡ true) ⊎ ((has ns c ≡ true) × Edge p c)
  unfolding edges_of has
  joined-edges_of es [] p c h = inl h
  joined-edges_of es (n ∷ ns) p c h =
      elim (joined-edges_of (es ++ edge_of m related ps n) ns p c h) [
        | inr (later, e) ↦ inr (ground arith, e)
        | inl early ↦ elim (Bool-cases (joined es p c)) [
          | inl there ↦ inl there
          | inr missing ↦
              let (same, e) =
                joined-edge_of n p c
                  (ground (arith, joined-append es (edge_of m related ps n) p c)) in
              inr (ground (arith, ==_iff n c), e)
        ]
      ]

  edges_of-joined :
      (es : List DependencyEdge) (ns : List String) (p c : String)
      → (joined es p c ≡ true) ⊎ ((has ns c ≡ true) × Edge p c)
      → joined (edges_of m related ps es ns) p c ≡ true
  unfolding edges_of has
  edges_of-joined es [] p c (inl h) = h
  edges_of-joined es [] p c (inr (h, e)) = cc
  edges_of-joined es (n ∷ ns) p c (inl h) =
      edges_of-joined (es ++ edge_of m related ps n) ns p c
        (inl (ground (arith, joined-append es (edge_of m related ps n) p c)))
  edges_of-joined es (n ∷ ns) p c (inr (h, e)) = elim (Bool-cases (n == c)) [
    | inl same ↦ edges_of-joined (es ++ edge_of m related ps n) ns p c (
        inl (
          ground (
            arith,
            joined-append es (edge_of m related ps n) p c,
            ==_iff n c,
            edge_of-joined p c e,
          )))
    | inr other ↦ edges_of-joined (es ++ edge_of m related ps n) ns p c (inr (ground arith, e))
  ]

  -- An edge is drawn exactly from a related parent with a position to a related job with one.
  pub edges_iff :
      (p c : String)
      → (joined (edges_of m related ps [] related) p c ≡ true) ↔ ((has related c ≡ true) × Edge p c)
  unfolding joined
  edges_iff p c = (
    λ h. elim (joined-edges_of [] related p c h) [ inl none_yet ↦ cc | inr r ↦ r ],
    λ r. edges_of-joined [] related p c (inr r),
  )
