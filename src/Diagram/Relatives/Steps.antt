-- ===== src/Diagram/Relatives/Steps.antt =====
-- The ways in which a call of `findAncestors` or `findDescendants` ends, for any relation `Next`.
use phan_tan_dkron_giuaky.Common.{
  ◌≡◌, refl, sym, true, false, inl, inr, List, [], ◌∷◌, ◌++◌, String, ℤ, has, add, has-add,
  has-append, get-put, ==_iff, string_eq, Bool-cases, arith, subst, ◌∙◌,
}
use phan_tan_dkron_giuaky.Diagram.Defs.{Reach}
use phan_tan_dkron_giuaky.Diagram.Relatives.Walk.{Walk, process, set_level}
use phan_tan_dkron_giuaky.Diagram.Relatives.Fuel.{Within}
use phan_tan_dkron_giuaky.Diagram.Relatives.Spec.{Progress, Explored}

-- The one name that `process` adds.
pub eq_of_new :
    (ps : List String) (name a : String) → has (add ps name) a ≡ true → has ps a ≡ false → name ≡ a
eq_of_new ps name a h k = ground (arith, has-add ps name a, ==_iff name a)

pub root_in_process : (name : String) (w : Walk) → has (process name w).processed name ≡ true
root_in_process name w = ground (arith, has-add w.processed name name, ==_iff name name)

pub grows_process : (name : String) (w : Walk) → Within w.processed (process name w).processed
grows_process name w a h = ground (arith, has-add w.processed name a)

module _ (Next : String → String → Type 0) (Good : ℤ → Type 0) where
  -- The name was processed before.
  pub again :
      (name : String) (w : Walk) → has w.processed name ≡ true → Explored Next Good name w w []
  unfolding has
  again name w h = record {
    progress = record {
      grows = λ a k. k;
      closed = λ a b k n step. cc;
      leveled = λ a k. cc;
      kept = λ a k. refl;
    };
    root_in = h;
    sound = λ a k. cc;
  }

  -- Nothing follows the name.
  pub stop :
      (name : String) (w : Walk)
      → ((a : String) → ¬ Next name a)
      → Explored Next Good name w (process name w) []
  unfolding has
  stop name w nothing = record {
    progress = record {
      grows = grows_process name w;
      closed = λ a b h k step.
          absurd (nothing b (subst (λ x. Next x b) (sym (eq_of_new w.processed name a h k)) step));
      leveled = λ a h. cc;
      kept = λ a h. refl;
    };
    root_in = root_in_process name w;
    sound = λ a h. cc;
  }

  -- One child is visited, at a level in `Good`.
  pub enter :
      (c : String) (l : ℤ) (w w' : Walk) (below : List String)
      → Good l
      → Explored Next Good c (set_level c l w) w' below
      → Progress Next Good w w' (c ∷ below)
  unfolding has
  enter c l w w' below good h = record {
    grows = h.progress.grows;
    closed = λ a b k n step. let r = h.progress.closed a b k n step in (r.0, ground arith);
    leveled = λ a k. elim (Bool-cases (has below a)) [
      | inl deep ↦ h.progress.leveled a deep
      | inr not_deep ↦
          (l, h.progress.kept a not_deep ∙ ground (arith, get-put w.levels c a l), good)
    ];
    kept = λ a k. h.progress.kept a (ground arith) ∙ ground (arith, get-put w.levels c a l);
  }

  -- Two parts of a walk, one after the other.
  pub andthen :
      (w w' w'' : Walk) (xs ys : List String)
      → Progress Next Good w w' xs
      → Progress Next Good w' w'' ys
      → Progress Next Good w w'' (xs ++ ys)
  andthen w w' w'' xs ys h k = record {
    grows = λ a p. k.grows a (h.grows a p);
    closed = λ a b p n step. elim (Bool-cases (has w'.processed a)) [
      | inl early ↦
          let r = h.closed a b early n step in (k.grows b r.0, ground (arith, has-append xs ys b))
      | inr late ↦ let r = k.closed a b p late step in (r.0, ground (arith, has-append xs ys b))
    ];
    leveled = λ a p. elim (Bool-cases (has ys a)) [
      | inl late ↦ k.leveled a late
      | inr early ↦
          let (l, at, good) = h.leveled a (ground (arith, has-append xs ys a)) in
          (l, k.kept a early ∙ at, good)
    ];
    kept = λ a p.
        k.kept a (ground (arith, has-append xs ys a))
        ∙ h.kept a (ground (arith, has-append xs ys a));
  }

  -- The name is processed, and then all that follows it is found.
  pub leave :
      (name : String) (w w' : Walk) (found : List String)
      → Progress Next Good (process name w) w' found
      → ((b : String) → Next name b → (has w'.processed b ≡ true) × (has found b ≡ true))
      → ((a : String) → has found a ≡ true → Reach Next name a)
      → Explored Next Good name w w' found
  leave name w w' found h follow sound = record {
    progress = record {
      grows = λ a p. h.grows a (grows_process name w a p);
      closed = λ a b p n step. elim (Bool-cases (has (add w.processed name) a)) [
        | inl new ↦ follow b (subst (λ x. Next x b) (sym (eq_of_new w.processed name a new n)) step)
        | inr later ↦ h.closed a b p later step
      ];
      leveled = h.leveled;
      kept = h.kept;
    };
    root_in = h.grows name (root_in_process name w);
    sound = sound;
  }
