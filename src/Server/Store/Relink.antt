-- ===== src/Server/Store/Relink.antt =====
-- What `removeFromParent`, `addToParent` and the two together do to a store in which every parent is
-- there.
use phan_tan_dkron_giuaky.Common.{
  ◌≡◌, refl, ◌∙◌, ap, Bool, true, false, not, ◌&&◌, ◌||◌, inl, inr, some, none, List, [], ◌∷◌, ◌++◌,
  String, ◌==◌, ==_iff, string_eq, get, get-put, put, has, has-append, keys-put-Distinct,
  if◌then◌else◌, subst, Bool-cases, arith,
}
use phan_tan_dkron_giuaky.Diagram.Defs.{truthy}
use phan_tan_dkron_giuaky.Server.Job.{Job, validate, stored}
use phan_tan_dkron_giuaky.Server.Cron.{Checks}
use phan_tan_dkron_giuaky.Server.Store.{
  Jobs, without, parent_missing, Outcome, remove_from_parent, add_to_parent,
}
use phan_tan_dkron_giuaky.Server.Store.Links.{
  parent_at, dependent, parent_at-put, dependent-put, Sound, validate-stored, has-without,
  parent_at_found, dependent_found, scheduled, scheduled_at, scheduled_at-put, scheduled_at_lem,
}
use phan_tan_dkron_giuaky.Server.Store.Resave.{listing, validate-listing, missing-listing}
use phan_tan_dkron_giuaky.Server.Store.Parents.{missing-put, missing-stored, parent_found}

module _ (k : Checks) where
  pub put-Sound :
      (m : Jobs) (j : Job)
      → Sound k m
      → validate k j ≡ none
      → parent_missing m j ≡ false
      → Sound k (put m j.name (stored j))
  unfolding stored
  put-Sound m j s valid anchored = record {
    distinct = keys-put-Distinct m j.name (stored j) s.distinct;
    named =
        λ n c found. ground (arith, get-put m j.name n (stored j), s.named n c, ==_iff j.name n);
    valid = λ n c found.
        ground (arith, get-put m j.name n (stored j), s.valid n c, validate-stored k j);
    anchored = λ n c found.
        missing-put m j.name (stored j) c
          (ground (arith, get-put m j.name n (stored j), s.anchored n c, missing-stored m j));
  }

  -- From `m` to `m'` no job changed its parent or whether it is scheduled, and the lists of dependent jobs are the `lists`.
  pub record Listed (m m' : Jobs) (lists : String → String → Bool) : Type 0 where
    pub sound : Sound k m'
    pub parents : (x : String) → parent_at m' x ≡ parent_at m x
    pub schedules : (x : String) → scheduled_at m' x ≡ scheduled_at m x
    pub lists_are : (q x : String) → truthy q ≡ true → dependent m' q x ≡ lists q x

  pub Listed-map :
      (m m' : Jobs) (f g : String → String → Bool)
      → Listed m m' f
      → ((q x : String) → truthy q ≡ true → f q x ≡ g q x)
      → Listed m m' g
  Listed-map m m' f g l same = record {
    sound = l.sound;
    parents = l.parents;
    schedules = l.schedules;
    lists_are = λ q x nonempty. l.lists_are q x nonempty ∙ same q x nonempty;
  }

  pub Listed-refl :
      (m : Jobs) (f : String → String → Bool)
      → Sound k m
      → ((q x : String) → truthy q ≡ true → dependent m q x ≡ f q x)
      → Listed m m f
  Listed-refl m f s same = record {
    sound = s;
    parents = λ x. refl;
    schedules = λ x. refl;
    lists_are = same;
  }

  -- A call of `SetJob` that saves a job of the store with another list.
  abbrev pub Relists : (Jobs → Job → Outcome) → Type 0
  Relists save =
      (m : Jobs) (j : Job) (ds : List String)
      → get m j.name ≡ some j
      → validate k j ≡ none
      → parent_missing m j ≡ false
      → save m (listing j ds) ≡ some (put m j.name (stored (listing j ds)), none)

  put-listing-Listed :
      (m : Jobs) (j : Job) (ds : List String)
      → Sound k m
      → get m j.name ≡ some j
      → Listed m
          (put m j.name (stored (listing j ds)))
          (λ q x. if j.name == q then has ds x else dependent m q x)
  unfolding stored scheduled
  put-listing-Listed m j ds s found = record {
    sound =
        put-Sound m (listing j ds) s (validate-listing k j ds ∙ s.valid j.name j found)
          (missing-listing m j ds ∙ s.anchored j.name j found);
    parents = λ x. ground (
      arith,
      parent_at-put m j.name (stored (listing j ds)) x,
      ==_iff j.name x,
      parent_at_found m j.name j found,
    );
    schedules = λ x. ground (
      arith,
      scheduled_at-put m j.name (stored (listing j ds)) x,
      ==_iff j.name x,
      scheduled_at_lem m j.name,
    );
    lists_are = λ q x nonempty. dependent-put m j.name (stored (listing j ds)) q x;
  }

  module _ (save : Jobs → Job → Outcome) (relists : Relists save) where
    -- The parent is there: its list becomes `ds`.
    relisted :
        (m : Jobs) (p : Job) (ds : List String) (n : String)
        → Sound k m
        → get m n ≡ some p
        → (m' : Jobs) × (save m (listing p ds) ≡ some (m', none))
          × Listed m m' (λ q x. if n == q then has ds x else dependent m q x)
    relisted m p ds n s found =
        let named = s.named n p found in
        let at_name : get m p.name ≡ some p = ap (get m) named ∙ found in
        let listed = put-listing-Listed m p ds s at_name in
        (
          put m p.name (stored (listing p ds)),
          relists m p ds at_name (s.valid n p found) (s.anchored n p found),
          subst
              (λ i.
                Listed m (put m p.name (stored (listing p ds)))
                  (λ q x. if i == q then has ds x else dependent m q x))
              named listed,
        )

    pub remove_from_parent_lem :
        (m : Jobs) (c : Job)
        → Sound k m
        → validate k c ≡ none
        → parent_missing m c ≡ false
        → (m' : Jobs) × (remove_from_parent save m (some c) ≡ some (m', none))
          × Listed m m' (λ q x. not (q == c.parent_job && x == c.name) && dependent m q x)
    unfolding remove_from_parent
    remove_from_parent_lem m c s valid anchored = elim (Bool-cases (truthy c.parent_job)) [
      | inl given ↦
          let (p, found, parent) = parent_found k m c valid anchored given in
          let (m', saved, listed) =
            relisted m p (without c.name p.dependent_jobs) c.parent_job s found in
          (
            m',
            rw given (rw parent saved),
            Listed-map m m' _ _ listed (λ q x nonempty. ground (
              arith,
              has-without c.name p.dependent_jobs x,
              dependent_found m c.parent_job x p found,
              ==_iff q c.parent_job,
              ==_iff c.parent_job q,
              ==_iff c.name x,
              ==_iff x c.name,
            )),
          )
      | inr root ↦ (
        m,
        rw root refl,
        Listed-refl m _ s (λ q x nonempty. ground (arith, ==_iff q c.parent_job)),
      )
    ]

    pub add_to_parent_lem :
        (m : Jobs) (c : Job)
        → Sound k m
        → validate k c ≡ none
        → parent_missing m c ≡ false
        → (m' : Jobs) × (add_to_parent save m c ≡ some (m', none))
          × Listed m m' (λ q x. (q == c.parent_job && x == c.name) || dependent m q x)
    unfolding add_to_parent has
    add_to_parent_lem m c s valid anchored = elim (Bool-cases (truthy c.parent_job)) [
      | inl given ↦
          let (p, found, parent) = parent_found k m c valid anchored given in
          let (m', saved, listed) =
            relisted m p (p.dependent_jobs ++ c.name ∷ []) c.parent_job s found in
          (
            m',
            rw given (rw parent saved),
            Listed-map m m' _ _ listed (λ q x nonempty. ground (
              arith,
              has-append p.dependent_jobs (c.name ∷ []) x,
              dependent_found m c.parent_job x p found,
              ==_iff q c.parent_job,
              ==_iff c.parent_job q,
              ==_iff c.name x,
              ==_iff x c.name,
            )),
          )
      | inr root ↦ (
        m,
        rw root refl,
        Listed-refl m _ s (λ q x nonempty. ground (arith, ==_iff q c.parent_job)),
      )
    ]
