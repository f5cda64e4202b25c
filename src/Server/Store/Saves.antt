-- ===== src/Server/Store/Saves.antt =====
-- What follows the transaction of `SetJob` of `dkron/dkron/store.go` makes the two sides of the tree
-- agree.
use phan_tan_dkron_giuaky.Common.{
  ◌≡◌, refl, ◌∙◌, sym, ap, Bool, false, not, ◌&&◌, ◌||◌, inl, inr, Option, some, none, String, ◌==◌,
  ==_iff, string_eq, get, put, has, if◌then◌else◌, Bool-cases, arith,
}
use phan_tan_dkron_giuaky.Server.Job.{Job, validate, stored}
use phan_tan_dkron_giuaky.Server.Cron.{Checks}
use phan_tan_dkron_giuaky.Server.Store.{
  Jobs, parent_missing, parent_of_saved, Outcome, remove_from_parent, relink,
}
use phan_tan_dkron_giuaky.Server.Store.Links.{
  parent_at, dependent, parent_at_lem, parent_at-put, dependent-put, Sound, Linked, scheduled,
  scheduled_at, scheduled_at-put,
}
use phan_tan_dkron_giuaky.Server.Store.Resave.{relink_same}
use phan_tan_dkron_giuaky.Server.Store.Relink.{
  Listed, Relists, Listed-refl, Listed-map, remove_from_parent_lem, add_to_parent_lem, put-Sound,
}
use phan_tan_dkron_giuaky.Server.Store.Parents.{missing-parents, missing-put}

-- The job that stands under the name `n`
abbrev Fits : Checks → Jobs → String → Option Job → Type 0
Fits k m n none = Unit
Fits k m n (some e) = (e.name ≡ n) × (validate k e ≡ none) × (parent_missing m e ≡ false)

module _ (k : Checks) (save : Jobs → Job → Outcome) (relists : Relists k save) where
  remove_saved :
      (m : Jobs) (n : String) (ej : Option Job)
      → Sound k m
      → Fits k m n ej
      → (m' : Jobs) × (remove_from_parent save m ej ≡ some (m', none))
        × Listed k m m' (λ q x. not (q == parent_of_saved ej && x == n) && dependent m q x)
  unfolding remove_from_parent
  remove_saved m n none s fits =
      (m, refl, Listed-refl k m _ s (λ q x nonempty. ground (arith, ==_iff q "")))
  remove_saved m n (some e) s (same, valid, anchored) =
      let (m', saved, listed) = remove_from_parent_lem k save relists m e s valid anchored in
      (m', saved, Listed-map k m m' _ _ listed (λ q x nonempty. rw same refl))

  relink_lem :
      (m : Jobs) (ej : Option Job) (j : Job)
      → Sound k m
      → Fits k m j.name ej
      → validate k j ≡ none
      → parent_missing m j ≡ false
      → (m' : Jobs) × (relink save m ej j ≡ some (m', none))
        × Listed k m m' (λ q x.
          if x == j.name && not (j.parent_job == parent_of_saved ej)
          then q == j.parent_job || (not (q == parent_of_saved ej) && dependent m q x)
          else dependent m q x)
  unfolding relink
  relink_lem m ej j s fits valid anchored = elim (Bool-cases (j.parent_job == parent_of_saved ej)) [
    | inl same ↦ (
      m,
      relink_same save m ej j ((==_iff j.parent_job (parent_of_saved ej)).0 same),
      Listed-refl k m _ s (λ q x nonempty. ground arith),
    )
    | inr other ↦
        let (m2, removed, first) = remove_saved m j.name ej s fits in
        let (m3, added, second) =
          add_to_parent_lem k save relists m2 j first.sound valid
            (missing-parents m m2 j first.parents ∙ anchored) in
        (
          m3,
          rw other (rw removed added),
          record {
            sound = second.sound;
            parents = λ x. second.parents x ∙ first.parents x;
            schedules = λ x. second.schedules x ∙ first.schedules x;
            lists_are = λ q x nonempty.
                second.lists_are q x nonempty ∙ ground (arith, first.lists_are q x nonempty);
          },
        )
  ]

Linked-Fits : (k : Checks) (m : Jobs) (n : String) → Sound k m → Fits k m n (get m n)
Linked-Fits k m n s = fits (get m n) refl
  where
    fits : (o : Option Job) → get m n ≡ o → Fits k m n o
    fits none found = tt
    fits (some e) found = (s.named n e found, s.valid n e found, s.anchored n e found)

Fits-put :
    (k : Checks) (m : Jobs) (n : String) (j : Job) (o : Option Job)
    → Fits k m n o
    → Fits k (put m n j) n o
Fits-put k m n j none f = tt
Fits-put k m n j (some e) f = (f.0, f.1, missing-put m n j e f.2)

module _ (k : Checks) (save : Jobs → Job → Outcome) (relists : Relists k save) where
  -- Once the job `j` is saved, the two sides are made to agree.
  relink-Linked :
      (m : Jobs) (j : Job)
      → Linked k m
      → validate k j ≡ none
      → parent_missing m j ≡ false
      → ((x : String) → has j.dependent_jobs x ≡ dependent m j.name x)
      → (m' : Jobs) × (relink save (put m j.name (stored j)) (get m j.name) j ≡ some (m', none))
        × Linked k m'
        × ((c : String)
            → parent_at m' c ≡ (if j.name == c then some j.parent_job else parent_at m c))
        × ((c : String)
            → scheduled_at m' c ≡ (if j.name == c then scheduled j else scheduled_at m c))
  unfolding stored scheduled
  relink-Linked m j l valid anchored lists =
      let (m', linked, listed) =
        relink_lem k save relists (put m j.name (stored j)) (get m j.name) j
          (put-Sound k m j l.sound valid anchored)
          (Fits-put k m j.name (stored j) (get m j.name) (Linked-Fits k m j.name l.sound)) valid
          (missing-put m j.name (stored j) j anchored) in
      let parents : (c : String)
          → parent_at m' c ≡ (if j.name == c then some j.parent_job else parent_at m c) =
        λ c. listed.parents c ∙ parent_at-put m j.name (stored j) c in
      (
        m',
        linked,
        record {
          sound = listed.sound;
          agree = λ p c nonempty. ground (
            arith,
            listed.lists_are p c nonempty,
            dependent-put m j.name (stored j) p c,
            lists c,
            parents c,
            l.agree p c nonempty,
            parent_at_lem m j.name,
            ==_iff c j.name,
            ==_iff j.name c,
            ==_iff p j.parent_job,
            ==_iff p (parent_of_saved (get m j.name)),
            ==_iff j.name p,
            ==_iff j.parent_job (parent_of_saved (get m j.name)),
          );
        },
        parents,
        λ c. listed.schedules c ∙ scheduled_at-put m j.name (stored j) c,
      )

  pub commit-Linked :
      (m : Jobs) (n parent : String) (runs : Bool) (j : Job)
      → Linked k m
      → j.name ≡ n
      → j.parent_job ≡ parent
      → scheduled j ≡ runs
      → validate k j ≡ none
      → parent_missing m j ≡ false
      → ((x : String) → has j.dependent_jobs x ≡ dependent m n x)
      → (m' : Jobs) × (relink save (put m n (stored j)) (get m n) j ≡ some (m', none))
        × Linked k m'
        × ((c : String) → parent_at m' c ≡ (if n == c then some parent else parent_at m c))
        × ((c : String) → scheduled_at m' c ≡ (if n == c then runs else scheduled_at m c))
  commit-Linked m n parent runs j l names same sets valid anchored lists =
      let lists' : (x : String) → has j.dependent_jobs x ≡ dependent m j.name x =
        λ x. lists x ∙ ap (λ i. dependent m i x) (sym names) in
      rw (sym names) (rw (sym same) (rw (sym sets) (relink-Linked m j l valid anchored lists')))
