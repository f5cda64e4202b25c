-- ===== src/Server/Store/Erase.antt =====
-- A job without dependent jobs is taken out of a store whose two sides agree.
use phan_tan_dkron_giuaky.Common.{
  ◌≡◌, ◌≢◌, sym, true, false, inl, inr, some, none, List, [], ◌∷◌, String, ◌==◌, ==_iff, string_eq,
  get, get-erase, erase, has, keys-erase-Distinct, if◌then◌else◌, Option-cases, arith,
}
use phan_tan_dkron_giuaky.Diagram.Defs.{truthy}
use phan_tan_dkron_giuaky.Server.Job.{Job}
use phan_tan_dkron_giuaky.Server.Cron.{Checks}
use phan_tan_dkron_giuaky.Server.Store.{Jobs, parent_missing}
use phan_tan_dkron_giuaky.Server.Store.Links.{
  parent_at, dependent, dependent_lem, dependent_found, parent_at_found, parent_at_lem, Sound,
  Linked, parent_at_found, dependent_found, scheduled_at, scheduled_at_lem,
}
use phan_tan_dkron_giuaky.Server.Store.Parents.{validate-name}

pub missing-erase :
    (m : Jobs) (n : String) (c : Job)
    → parent_missing m c ≡ false
    → (c.parent_job == n) ≡ false
    → parent_missing (erase m n) c ≡ false
unfolding parent_missing
missing-erase m n c there other =
    ground (arith, get-erase m n c.parent_job, ==_iff n c.parent_job, ==_iff c.parent_job n)

pub parent_at-erase :
    (m : Jobs) (n c : String) → parent_at (erase m n) c ≡ (if n == c then none else parent_at m c)
parent_at-erase m n c =
    ground (arith, parent_at_lem m c, parent_at_lem (erase m n) c, get-erase m n c)

pub scheduled_at-erase :
    (m : Jobs) (n c : String)
    → scheduled_at (erase m n) c ≡ (if n == c then false else scheduled_at m c)
scheduled_at-erase m n c =
    ground (arith, scheduled_at_lem m c, scheduled_at_lem (erase m n) c, get-erase m n c)

pub dependent-erase :
    (m : Jobs) (n p c : String)
    → dependent (erase m n) p c ≡ (if n == p then false else dependent m p c)
dependent-erase m n p c =
    ground (arith, dependent_lem m p c, dependent_lem (erase m n) p c, get-erase m n p)

module _ (k : Checks) where
  pub erase-Sound :
      (m : Jobs) (n : String)
      → Sound k m
      → ((c : String) → parent_at m c ≢ some n)
      → Sound k (erase m n)
  erase-Sound m n s childless = record {
    distinct = keys-erase-Distinct m n s.distinct;
    named = λ c j found. ground (arith, get-erase m n c, s.named c j);
    valid = λ c j found. ground (arith, get-erase m n c, s.valid c j);
    anchored = λ c j found.
        let before : get m c ≡ some j = ground (arith, get-erase m n c) in
        missing-erase m n j (s.anchored c j before)
          (ground (arith, ==_iff j.parent_job n, childless c, parent_at_found m c j before));
  }

  -- Jobs of the store have a name.
  pub nonempty_name :
      (m : Jobs) (n : String) (j : Job) → Sound k m → get m n ≡ some j → truthy n ≡ true
  nonempty_name m n j s found = rw (sym (s.named n j found)) (validate-name k j (s.valid n j found))

  pub childless_lem :
      (m : Jobs) (n : String) (j : Job) (c : String)
      → Linked k m
      → get m n ≡ some j
      → j.dependent_jobs ≡ []
      → parent_at m c ≢ some n
  unfolding has
  childless_lem m n j c l found clear child =
      let no : true ≡ false =
        ground
          (arith, l.agree n c (nonempty_name m n j l.sound found), dependent_found m n c j found) in
      cc

  pub first_child :
      (m : Jobs) (n : String) (j : Job) (d : String) (ds : List String)
      → Linked k m
      → get m n ≡ some j
      → j.dependent_jobs ≡ d ∷ ds
      → parent_at m d ≡ some n
  unfolding has
  first_child m n j d ds l found listed = ground (
    arith,
    l.agree n d (nonempty_name m n j l.sound found),
    dependent_found m n d j found,
    ==_iff d d,
  )

  pub named_is_there :
      (m : Jobs) (n d : String)
      → Sound k m
      → truthy n ≡ true
      → get m n ≡ none
      → parent_at m d ≢ some n
  unfolding parent_missing
  named_is_there m n d s nonempty gone child = elim (Option-cases (get m d)) [
    | inl absent ↦ let no : true ≡ false = ground (arith, parent_at_lem m d) in cc
    | inr (j, found) ↦
        let no : true ≡ false =
          ground (arith, parent_at_lem m d, s.anchored d j found, ==_iff j.parent_job n) in
        cc
  ]
