-- ===== src/Server/Diagrams.antt =====
-- The jobs of the store, `dkron/dkron/store.go`, as the diagram of `dkron/ui/src/jobs/` gets them: `GET
-- /v1/jobs` of `dkron/dkron/api.go` sends every job with the fields of `dkron/dkron/job.go`.
use phan_tan_dkron_giuaky.Common.{
  ◌≡◌, refl, ◌∙◌, sym, ap, true, false, ◌↔◌, inl, inr, some, none, List, [], ◌∷◌, String, pos,
  ==_iff, string_eq, get, get-put, put, has, foldl, Distinct, keys, has_key, get_of_not_has_key,
  has_key_of_get, get_of_has_key, Option-cases, List-cases, arith,
}
use phan_tan_dkron_giuaky.Server.Job.{Job}
use phan_tan_dkron_giuaky.Server.Cron.{Checks}
use phan_tan_dkron_giuaky.Server.Store.{Jobs}
use phan_tan_dkron_giuaky.Server.Store.Links.{dependent_lem, parent_at_lem, Linked}
use phan_tan_dkron_giuaky.Diagram.Defs.{
  one, more, Reach-before, Job as UiJob, JobMap, IsParent, IsChild, Reach, children_of,
}
use phan_tan_dkron_giuaky.Server.Store.Erase.{nonempty_name}
use phan_tan_dkron_giuaky.Server.Executions.{Db}
use phan_tan_dkron_giuaky.Server.History.{History, History-Linked}
use phan_tan_dkron_giuaky.Diagram.Relatives.Walk.{Walk, job_map, find_ancestors, find_descendants}
use phan_tan_dkron_giuaky.Diagram.Relatives.Correct.{
  depth_bound, new_walk, find_ancestors_iff_Reach, find_descendants_iff_Reach,
}

-- A list of no names is sent as `null`.
unfoldable pub ui_job : Job → UiJob
ui_job j = record {
  id = j.name;
  name = j.name;
  displayname = some j.displayname;
  parent_job = some j.parent_job;
  dependent_jobs = elim j.dependent_jobs [ [] ↦ none | d ∷ ds ↦ some (d ∷ ds) ];
  status = some j.status;
}

unfoldable pub sent : Jobs → List UiJob
sent [] = []
sent ((n, j) ∷ m) = ui_job j ∷ sent m

get-foldl :
    (m : Jobs) (u : JobMap)
    → Distinct (keys m)
    → ((n : String) (j : Job) → get m n ≡ some j → j.name ≡ n)
    → (x : String)
    → get (foldl (λ v i. put v i.name i) u (sent m)) x
      ≡ (elim (get m x) [ none ↦ get u x | some j ↦ some (ui_job j) ])
unfolding get sent ui_job has_key
get-foldl [] u d named x = refl
get-foldl ((n, j) ∷ m) u d named x =
    let own : j.name ≡ n = named n j (rw ((==_iff n n).1 refl) refl) in
    let absent : get m n ≡ none = get_of_not_has_key m n d.0 in
    let rest =
      get-foldl m (put u j.name (ui_job j)) d.1
        (λ y i found. named y i (ground (arith, ==_iff n y))) x in
    ground (arith, rest, ==_iff n x, ==_iff j.name x, get-put u j.name x (ui_job j))

-- The map that the diagram makes of the jobs, in whatever order they were sent
get-job_map :
    (m listed : Jobs)
    → Distinct (keys listed)
    → ((x : String) → get listed x ≡ get m x)
    → ((n : String) (j : Job) → get m n ≡ some j → j.name ≡ n)
    → (x : String)
    → get (job_map (sent listed)) x ≡ (elim (get m x) [ none ↦ none | some j ↦ some (ui_job j) ])
unfolding get job_map
get-job_map m listed d same named x =
    let all = get-foldl listed [] d (λ n j found. named n j (sym (same n) ∙ found)) x in
    ground (arith, all, same x)

children_of-ui_job :
    (j : Job) (c : String) → has (children_of (ui_job j)) c ≡ has j.dependent_jobs c
unfolding children_of ui_job
children_of-ui_job j c = elim (List-cases j.dependent_jobs) [
  | inl clear ↦ rw clear refl
  | inr (d, ds, listed) ↦ rw listed refl
]

reverse :
    (Next Back : String → String → Type 0) (a b : String)
    → ((x y : String) → Next x y → Back y x)
    → Reach Next a b
    → Reach Back b a
reverse Next Back a b turn (one h) = one (turn a b h)
reverse Next Back a b turn (more r h) =
    Reach-before Back b (turn _ b h) (reverse Next Back a _ turn r)

module _ (k : Checks) (m : Jobs) (u : JobMap) (l : Linked k m)
    (shows : (x : String)
      → get u x ≡ (elim (get m x) [ none ↦ none | some j ↦ some (ui_job j) ])) where
  stored_of_shown :
      (x : String) (i : UiJob) → get u x ≡ some i → (j : Job) × (get m x ≡ some j) × (i ≡ ui_job j)
  stored_of_shown x i found = elim (Option-cases (get m x)) [
    | inl gone ↦ let no : true ≡ false = ground (arith, shows x) in cc
    | inr (j, there) ↦ (j, there, ground (arith, shows x))
  ]

  shown_of_stored : (x : String) (j : Job) → get m x ≡ some j → get u x ≡ some (ui_job j)
  shown_of_stored x j found = ground (arith, shows x)

  IsChild-IsParent : (p c : String) → IsChild u p c → IsParent u c p
  unfolding ui_job
  IsChild-IsParent p c h =
      let (jp, stored_p, same) = stored_of_shown p h.job h.found in
      let nonempty = nonempty_name k m p jp l.sound stored_p in
      let listed : has jp.dependent_jobs c ≡ true =
        sym (children_of-ui_job jp c) ∙ ap (λ i. has (children_of i) c) (sym same) ∙ h.listed in
      let (i, shown_c) = get_of_has_key u c h.known in
      let (jc, stored_c, same_c) = stored_of_shown c i shown_c in
      record {
        job = ui_job jc;
        found = shown_of_stored c jc stored_c;
        named = ground (arith, l.agree p c nonempty, dependent_lem m p c, parent_at_lem m c);
        nonempty = nonempty;
        known = has_key_of_get u p h.job h.found;
      }

  IsParent-IsChild : (p c : String) → IsParent u c p → IsChild u p c
  unfolding ui_job
  IsParent-IsChild p c h =
      let (jc, stored_c, same) = stored_of_shown c h.job h.found in
      let (i, shown_p) = get_of_has_key u p h.known in
      let (jp, stored_p, same_p) = stored_of_shown p i shown_p in
      let names : jc.parent_job ≡ p = ground arith in
      record {
        job = ui_job jp;
        found = shown_of_stored p jp stored_p;
        listed =
            children_of-ui_job jp c
            ∙ ground (arith, l.agree p c h.nonempty, dependent_lem m p c, parent_at_lem m c);
        known = has_key_of_get u c h.job h.found;
      }

History-Reach :
    (k : Checks) (db : Db) (listed : Jobs) (a b : String)
    → History k db
    → Distinct (keys listed)
    → ((x : String) → get listed x ≡ get db.jobs x)
    → Reach (IsChild (job_map (sent listed))) a b ↔ Reach (IsParent (job_map (sent listed))) b a
History-Reach k db listed a b h d same =
    let u = job_map (sent listed) in
    let l = History-Linked k db h in
    let shows : (x : String)
        → get u x ≡ (elim (get db.jobs x) [ none ↦ none | some j ↦ some (ui_job j) ]) =
      get-job_map db.jobs listed d same l.sound.named in
    (
      reverse (IsChild u) (IsParent u) a b (λ p c. IsChild-IsParent k db.jobs u l shows p c),
      reverse (IsParent u) (IsChild u) b a (λ c p. IsParent-IsChild k db.jobs u l shows p c),
    )

-- In a store that calls of `SetJob`, on jobs whose list of dependent jobs names no others than the list
-- in the store, of `DeleteJob`, `SetExecution`, `SetExecutionDone` and `DeleteExecutions` lead to, and
-- whose jobs the diagram gets in any order, the search for the descendants of `a` finds `b` exactly when
-- the search for the ancestors of `b` finds `a`.
pub find_descendants_iff_find_ancestors :
    (k : Checks) (db : Db) (listed : Jobs) (a b : String)
    → History k db
    → Distinct (keys listed)
    → ((x : String) → get listed x ≡ get db.jobs x)
    → (down : List String × Walk) × (up : List String × Walk) × (find_descendants
          (depth_bound (job_map (sent listed)))
          (job_map (sent listed))
          a
          (pos 0)
          (new_walk [])
        ≡ some down)
      × (find_ancestors
            (depth_bound (job_map (sent listed)))
            (job_map (sent listed))
            b
            (pos 0)
            (new_walk [])
          ≡ some up)
      × ((has down.0 b ≡ true) ↔ (has up.0 a ≡ true))
find_descendants_iff_find_ancestors k db listed a b h d same =
    let u = job_map (sent listed) in
    let (down, ran_down, below) = find_descendants_iff_Reach u a b [] in
    let (up, ran_up, above) = find_ancestors_iff_Reach u b a [] in
    let turned = History-Reach k db listed a b h d same in
    (
      down,
      up,
      ran_down,
      ran_up,
      (λ found. above.1 (turned.0 (below.0 found)), λ found. below.1 (turned.1 (above.0 found))),
    )
