-- ===== src/Diagram/Relatives/Spec.antt =====
-- What a finished call of `findAncestors` or `findDescendants` has done, for a relation `Next`
-- between names and a set `Good` of levels.
use phan_tan_dkron_giuaky.Common.{◌≡◌, true, false, some, List, String, ℤ, has, get, string_eq}
use phan_tan_dkron_giuaky.Diagram.Defs.{Reach}
use phan_tan_dkron_giuaky.Diagram.Relatives.Walk.{Walk}
use phan_tan_dkron_giuaky.Diagram.Relatives.Fuel.{Within}

module _ (Next : String → String → Type 0) (Good : ℤ → Type 0) where
  -- From the walk `w`, the names `found` were found, and `w'` is the walk afterwards.
  pub record Progress (w w' : Walk) (found : List String) : Type 0 where
    -- No name is forgotten.
    pub grows : Within w.processed w'.processed
    -- What follows a newly processed name is processed and found.
    pub closed :
        (a b : String)
        → has w'.processed a ≡ true
        → has w.processed a ≡ false
        → Next a b
        → (has w'.processed b ≡ true) × (has found b ≡ true)
    -- What was found has a level in `Good`; the other levels are as they were.
    pub leveled : (a : String) → has found a ≡ true → (l : ℤ) × (get w'.levels a ≡ some l) × Good l
    pub kept : (a : String) → has found a ≡ false → get w'.levels a ≡ get w.levels a

  -- A call on `root`.
  pub record Explored (root : String) (w w' : Walk) (found : List String) : Type 0 where
    pub progress : Progress w w' found
    pub root_in : has w'.processed root ≡ true
    pub sound : (a : String) → has found a ≡ true → Reach Next root a

  -- From an empty set of names, what was found is what `root` reaches.
  pub Explored-complete :
      {root : String} {w w' : Walk} {found : List String} {a : String}
      → Explored root w w' found
      → ((b : String) → has w.processed b ≡ false)
      → Reach Next root a
      → (has w'.processed a ≡ true) × (has found a ≡ true)
  Explored-complete {root} h none_yet (Reach.one step) =
      h.progress.closed root _ h.root_in (none_yet root) step
  Explored-complete h none_yet (Reach.more {b} r step) =
      let before = Explored-complete h none_yet r in
      h.progress.closed b _ (before.0) (none_yet b) step
