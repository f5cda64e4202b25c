-- ===== src/Diagram/Relatives/Descendants.antt =====
-- `findDescendants`: it ends, and finds every job below.
use phan_tan_dkron_giuaky.Common.{
  ℕ, zero, suc, ◌<◌, ◌≡◌, ◌⊎◌, refl, true, false, inl, inr, some, List, [], ◌∷◌, ◌++◌, String, ℤ,
  pos, ◌+ℤ◌, ◌<ℤ◌, ◌≤ℤ◌, int_laws, has, has-append, get, keys, has_key, has_key_of_get, subst, ◌==◌,
  ==_iff, string_eq, Bool-cases, Option-cases, arith,
}
use phan_tan_dkron_giuaky.Diagram.Defs.{Job, JobMap, IsChild, Reach, Reach-before, children_of}
use phan_tan_dkron_giuaky.Diagram.Relatives.Walk.{
  Walk, process, set_level, each_child, find_descendants,
}
use phan_tan_dkron_giuaky.Diagram.Relatives.Fuel.{fresh, fresh-add, fresh-Within}
use phan_tan_dkron_giuaky.Diagram.Relatives.Spec.{Progress, Explored}
use phan_tan_dkron_giuaky.Diagram.Relatives.Steps.{again, stop, enter, andthen, leave}

abbrev pub Positive : ℤ → Type 0
Positive l = pos 0 <ℤ l

module _ (m : JobMap) where
  abbrev pub Outcome : ℕ → String → ℤ → Walk → Type 0
  Outcome fuel name level w =
      (r : List String × Walk) × (find_descendants fuel m name level w ≡ some r)
      × Explored (IsChild m) Positive name w r.1 r.0

  -- `a` is a known name of `cs`, or below one.
  abbrev From : List String → String → Type 0
  From cs a =
      (c : String) × (has cs c ≡ true) × (has_key m c ≡ true) × ((c ≡ a) ⊎ Reach (IsChild m) c a)

  -- What the loop over the children `cs` has done.
  record Swept (cs : List String) (w w' : Walk) (found : List String) : Type 0 where
    progress : Progress (IsChild m) Positive w w' found
    all_found :
        (b : String)
        → has cs b ≡ true
        → has_key m b ≡ true
        → (has w'.processed b ≡ true) × (has found b ≡ true)
    sources : (a : String) → has found a ≡ true → From cs a

  abbrev Sweep : ℕ → ℤ → List String → Walk → Type 0
  Sweep fuel level cs w =
      (r : List String × Walk) × (each_child (find_descendants fuel m) m level cs w ≡ some r)
      × Swept cs w r.1 r.0

  From-tail : (c a : String) (cs : List String) → From cs a → From (c ∷ cs) a
  unfolding has
  From-tail c a cs (d, listed, known, rest) = (d, ground arith, known, rest)

  From-head :
      (c a : String) (cs below : List String) (w w' : Walk)
      → has_key m c ≡ true
      → Explored (IsChild m) Positive c w w' below
      → has (c ∷ below) a ≡ true
      → From (c ∷ cs) a
  unfolding has
  From-head c a cs below w w' known h k = elim (Bool-cases (c == a)) [
    | inl same ↦ (c, ground (arith, ==_iff c c), known, inl ((==_iff c a).0 same))
    | inr other ↦ (c, ground (arith, ==_iff c c), known, inr (h.sound a (ground arith)))
  ]

  sweep_none : (w : Walk) → Swept [] w w []
  unfolding has
  sweep_none w = record {
    progress = record {
      grows = λ a h. h;
      closed = λ a b h k s. cc;
      leveled = λ a h. cc;
      kept = λ a h. refl;
    };
    all_found = λ b h k. cc;
    sources = λ a h. cc;
  }

  sweep_unknown :
      (c : String) (cs : List String) (w w' : Walk) (found : List String)
      → has_key m c ≡ false
      → Swept cs w w' found
      → Swept (c ∷ cs) w w' found
  unfolding has
  sweep_unknown c cs w w' found unknown h = record {
    progress = h.progress;
    all_found = λ b listed known. h.all_found b (ground (arith, ==_iff c b)) known;
    sources = λ a k. From-tail c a cs (h.sources a k);
  }

  sweep_known :
      (c : String) (l : ℤ) (cs : List String) (w w' w'' : Walk) (below rest : List String)
      → has_key m c ≡ true
      → Positive l
      → Explored (IsChild m) Positive c (set_level c l w) w' below
      → Swept cs w' w'' rest
      → Swept (c ∷ cs) w w'' ((c ∷ below) ++ rest)
  unfolding has
  sweep_known c l cs w w' w'' below rest known good h k = record {
    progress =
        andthen (IsChild m) Positive w w' w'' (c ∷ below) rest
          (enter (IsChild m) Positive c l w w' below good h) k.progress;
    all_found = λ b listed there. elim (Bool-cases (c == b)) [
      | inl same ↦
          (k.progress.grows b (ground (arith, ==_iff c b, h.root_in)), ground (arith, ==_iff c b))
      | inr other ↦
          let r = k.all_found b (ground arith) there in
          (r.0, ground (arith, has-append (c ∷ below) rest b))
    ];
    sources = λ a p. elim (Bool-cases (has (c ∷ below) a)) [
      | inl near ↦ From-head c a cs below (set_level c l w) w' known h near
      | inr far ↦ From-tail c a cs (k.sources a (ground (arith, has-append (c ∷ below) rest a)))
    ];
  }

  module _ (fuel : ℕ)
      (visit : (name : String) (level : ℤ) (w : Walk)
        → fresh (keys m) w.processed < fuel
        → pos 0 ≤ℤ level
        → Outcome fuel name level w) where
    sweep :
        (level : ℤ) (cs : List String) (w : Walk)
        → fresh (keys m) w.processed < fuel
        → pos 0 ≤ℤ level
        → Sweep fuel level cs w
    unfolding each_child
    sweep level [] w enough above = (([], w), refl, sweep_none w)
    sweep level (c ∷ cs) w enough above = elim (Bool-cases (has_key m c)) [
      | inl known ↦
          let ((below, w'), ran, h) =
            visit c (level +ℤ pos 1) (set_level c (level +ℤ pos 1) w) enough (omega int_laws) in
          let ((rest, w''), swept, k) =
            sweep level cs w'
              (omega (arith, fresh-Within (keys m) w.processed w'.processed h.progress.grows))
              above in
          (
            (((c ∷ below) ++ rest), w''),
            ground arith,
            sweep_known c (level +ℤ pos 1) cs w w' w'' below rest known (omega int_laws) h k,
          )
      | inr unknown ↦
          let ((found, w'), swept, k) = sweep level cs w enough above in
          ((found, w'), ground arith, sweep_unknown c cs w w' found unknown k)
    ]

  found_job :
      (fuel : ℕ) (name : String) (level : ℤ) (w : Walk) (job : Job)
      → has w.processed name ≡ false
      → get m name ≡ some job
      → Sweep fuel level (children_of job) (process name w)
      → Outcome (suc fuel) name level w
  unfolding find_descendants
  found_job fuel name level w job new found ((all, w'), swept, k) = (
    (all, w'),
    ground arith,
    leave (IsChild m) Positive name w w' all k.progress
        (λ b s. k.all_found b (ground (arith, s.found, s.listed)) s.known)
        (λ a h.
          let (c, listed, known, near_or_far) = k.sources a h in
          let next : IsChild m name c = record {
            job = job;
            found = found;
            listed = listed;
            known = known;
          } in
          elim near_or_far [
            | inl near ↦ subst (Reach (IsChild m) name) near (Reach.one next)
            | inr far ↦ Reach-before (IsChild m) name next far
          ]),
  )

  -- The induction: with fuel for every job not yet processed, the call returns.
  pub explore_descendants :
      (fuel : ℕ) (name : String) (level : ℤ) (w : Walk)
      → fresh (keys m) w.processed < fuel
      → pos 0 ≤ℤ level
      → Outcome fuel name level w
  unfolding find_descendants has_key
  explore_descendants zero name level w enough above = elim enough [ ]
  explore_descendants (suc fuel) name level w enough above =
      elim (Bool-cases (has w.processed name)) [
        | inl old ↦ (([], w), ground arith, again (IsChild m) Positive name w old)
        | inr new ↦ elim (Option-cases (get m name)) [
          | inl unknown ↦ (
            ([], process name w),
            ground arith,
            stop (IsChild m) Positive name w (λ a s. cc (s.found)),
          )
          | inr (job, found) ↦ found_job fuel name level w job new found (
              sweep fuel (explore_descendants fuel) level (children_of job) (process name w)
                (omega (
                  arith,
                  fresh-add (keys m) w.processed name (has_key_of_get m name job found) new,
                ))
                above)
        ]
      ]
