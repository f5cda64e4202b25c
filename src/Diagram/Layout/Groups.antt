-- ===== src/Diagram/Layout/Groups.antt =====
-- The groups by level: each related job is in one group, that of its level.
use phan_tan_dkron_giuaky.Common.{
  ◌≡◌, refl, sym, ◌∙◌, true, ◌&&◌, ◌||◌, inl, inr, List, [], ◌∷◌, ◌++◌, String, ℤ, foldl, has,
  has-append, get, get-put, put, keys, has-keys-put, keys-put-Distinct, has_key, get_of_not_has_key,
  Distinct, Distinct-append, has-sort_levels, sort_levels-Distinct, ◌==◌, ==_iff, string_eq, int_eq,
  if◌then◌else◌, Bool-cases, arith,
}
use mathlib.Core.List.{append-nil, append_assoc}
use phan_tan_dkron_giuaky.Diagram.Layout.Place.{
  Groups, level_of, jobs_at, ensure_group, group_job, group_jobs, sorted_levels,
}

module _ (levels : List (String × ℤ)) where
  -- The names of the level `l`, in order.
  named_at : ℤ → List String → List String
  named_at l [] = []
  named_at l (n ∷ ns) = if level_of levels n == l then n ∷ named_at l ns else named_at l ns

  has-named_at :
      (l : ℤ) (ns : List String) (a : String)
      → has (named_at l ns) a ≡ (has ns a && level_of levels a == l)
  unfolding named_at has
  has-named_at l [] a = refl
  has-named_at l (n ∷ ns) a = ground (arith, ==_iff n a, has-named_at l ns a)

  named_at-Distinct : (l : ℤ) (ns : List String) → Distinct ns → Distinct (named_at l ns)
  unfolding named_at
  named_at-Distinct l [] h = tt
  named_at-Distinct l (n ∷ ns) h = ground (arith, has-named_at l ns n, named_at-Distinct l ns h.1)

  jobs_at-ensure_group : (g : Groups) (k l : ℤ) → jobs_at (ensure_group g k) l ≡ jobs_at g l
  unfolding jobs_at ensure_group
  jobs_at-ensure_group g k l = ground (arith, get-put g k l [], get_of_not_has_key g k, ==_iff k l)

  jobs_at-put :
      (g : Groups) (k l : ℤ) (ns : List String)
      → jobs_at (put g k ns) l ≡ (if k == l then ns else jobs_at g l)
  unfolding jobs_at
  jobs_at-put g k l ns = ground (arith, get-put g k l ns)

  jobs_at-group_job :
      (g : Groups) (n : String) (l : ℤ)
      → jobs_at (group_job levels g n) l
        ≡ jobs_at g l ++ (if level_of levels n == l then n ∷ [] else [])
  jobs_at-group_job g n l =
      let k = level_of levels n in
      let g' = ensure_group g k in
      unfold group_job in
      ground (
        arith,
        jobs_at-put g' k l (jobs_at g' k ++ n ∷ []),
        jobs_at-ensure_group g k l,
        jobs_at-ensure_group g k k,
        ==_iff k l,
        append-nil (jobs_at g l),
      )

  jobs_at-group_jobs_from :
      (g : Groups) (ns : List String) (l : ℤ)
      → jobs_at (foldl (group_job levels) g ns) l ≡ jobs_at g l ++ named_at l ns
  unfolding named_at
  jobs_at-group_jobs_from g [] l = sym (append-nil (jobs_at g l))
  jobs_at-group_jobs_from g (n ∷ ns) l =
      jobs_at-group_jobs_from (group_job levels g n) ns l
      ∙ ground (
        arith,
        jobs_at-group_job g n l,
        append_assoc (jobs_at g l) (n ∷ []) (named_at l ns),
        append-nil (jobs_at g l),
      )

  has-keys-group_job :
      (g : Groups) (n : String) (l : ℤ)
      → has (keys (group_job levels g n)) l ≡ (has (keys g) l || level_of levels n == l)
  has-keys-group_job g n l =
      let k = level_of levels n in
      let g' = ensure_group g k in
      unfold group_job ensure_group has_key in
      ground
        (arith, has-keys-put g' k l (jobs_at g' k ++ n ∷ []), has-keys-put g k l [], ==_iff k l)

  ensure_group-Distinct :
      (g : Groups) (k : ℤ) → Distinct (keys g) → Distinct (keys (ensure_group g k))
  unfolding ensure_group
  ensure_group-Distinct g k h = elim (Bool-cases (has_key g k)) [
    | inl there ↦ rw (there, ensure_group) h
    | inr missing ↦ rw (missing, ensure_group) (keys-put-Distinct g k [] h)
  ]

  Distinct-keys-group_job :
      (g : Groups) (n : String) → Distinct (keys g) → Distinct (keys (group_job levels g n))
  Distinct-keys-group_job g n h =
      let k = level_of levels n in
      let g' = ensure_group g k in
      unfold group_job in
      keys-put-Distinct g' k (jobs_at g' k ++ n ∷ []) (ensure_group-Distinct g k h)

  -- The keys are the levels of the jobs, each once.
  has-keys-group_jobs_from :
      (g : Groups) (ns : List String) (a : String)
      → (has ns a || has (keys g) (level_of levels a)) ≡ true
      → has (keys (foldl (group_job levels) g ns)) (level_of levels a) ≡ true
  unfolding has
  has-keys-group_jobs_from g [] a h = ground arith
  has-keys-group_jobs_from g (n ∷ ns) a h = has-keys-group_jobs_from (group_job levels g n) ns a (
      ground (
        arith,
        ==_iff n a,
        ==_iff (level_of levels n) (level_of levels a),
        has-keys-group_job g n (level_of levels a),
      ))

  Distinct-keys-group_jobs_from :
      (g : Groups) (ns : List String)
      → Distinct (keys g)
      → Distinct (keys (foldl (group_job levels) g ns))
  Distinct-keys-group_jobs_from g [] h = h
  Distinct-keys-group_jobs_from g (n ∷ ns) h =
      Distinct-keys-group_jobs_from (group_job levels g n) ns (Distinct-keys-group_job g n h)

-- The names in the rows of `ls`, row by row.
unfoldable pub row_names : Groups → List ℤ → List String
row_names g [] = []
row_names g (l ∷ ls) = jobs_at g l ++ row_names g ls

module _ (levels : List (String × ℤ)) (related : List String) where
  abbrev pub groups : Groups
  groups = group_jobs levels related

  jobs_at-groups : (l : ℤ) → jobs_at groups l ≡ named_at levels l related
  unfolding group_jobs jobs_at get
  jobs_at-groups l = jobs_at-group_jobs_from levels [] related l

  has-row_names_of :
      (ls : List ℤ) (a : String)
      → has (row_names groups ls) a ≡ (has related a && has ls (level_of levels a))
  unfolding row_names has
  has-row_names_of [] a = ground arith
  has-row_names_of (l ∷ ls) a = ground (
    arith,
    has-append (jobs_at groups l) (row_names groups ls) a,
    jobs_at-groups l,
    has-named_at levels l related a,
    has-row_names_of ls a,
    ==_iff l (level_of levels a),
    ==_iff (level_of levels a) l,
  )

  row_names-Distinct :
      (ls : List ℤ) → Distinct related → Distinct ls → Distinct (row_names groups ls)
  unfolding row_names
  row_names-Distinct [] h k = tt
  row_names-Distinct (l ∷ ls) h k =
      Distinct-append (jobs_at groups l) (row_names groups ls)
        (rw (jobs_at-groups l) (named_at-Distinct levels l related h)) (row_names-Distinct ls h k.1)
        (λ a p. ground (
          arith,
          jobs_at-groups l,
          has-named_at levels l related a,
          has-row_names_of ls a,
          k.0,
          ==_iff (level_of levels a) l,
        ))

  pub sorted-Distinct : Distinct (sorted_levels groups)
  unfolding sorted_levels group_jobs
  sorted-Distinct =
      sort_levels-Distinct (keys groups) (Distinct-keys-group_jobs_from levels [] related tt)

  -- Every related job stands in exactly one row.
  pub has-row_names : (a : String) → has (row_names groups (sorted_levels groups)) a ≡ has related a
  unfolding sorted_levels group_jobs
  has-row_names a =
      has-row_names_of (sorted_levels groups) a
      ∙ ground (
        arith,
        has-sort_levels (keys groups) (level_of levels a),
        has-keys-group_jobs_from levels [] related a,
      )

  pub row_names_once : Distinct related → Distinct (row_names groups (sorted_levels groups))
  row_names_once h = row_names-Distinct (sorted_levels groups) h sorted-Distinct

  pub level_of-jobs_at :
      (l : ℤ) (a : String) → has (jobs_at groups l) a ≡ true → level_of levels a ≡ l
  level_of-jobs_at l a h =
      ground
        (arith, jobs_at-groups l, has-named_at levels l related a, ==_iff (level_of levels a) l)
