-- ===== src/Server/Scheduler/Laws.antt =====
-- What `AddJob`, `RemoveJob`, `ClearCron` and `Start` of `dkron/dkron/scheduler.go` do to the entries of
-- the cron engine, and that every schedule that `Validate` lets in is taken by the engine.
use phan_tan_dkron_giuaky.Common.{
  ℕ, ◌+◌, ◌-◌, ◌≡◌, ◌≤◌, ◌<◌, refl, ap, ◌∙◌, Bool, true, false, not, ◌&&◌, ◌||◌, inl, inr, some,
  none, List, [], ◌∷◌, String, ◌==◌, ==_iff, string_eq, codes_eq, if◌then◌else◌, Bool-cases,
  Option-cases, arith,
}
use phan_tan_dkron_giuaky.Diagram.Defs.{truthy}
use phan_tan_dkron_giuaky.Server.Job.{Job, is_none}
use phan_tan_dkron_giuaky.Server.Cron.{Checks, Schedule, parse}
use phan_tan_dkron_giuaky.Server.Store.Links.{scheduled}
use phan_tan_dkron_giuaky.Server.Scheduler.{
  Entry, has_id, without_id, tally, CronEngine, get_entry_job, schedule_of, remove_job, drop_entry,
  add_job, clear_cron, add_jobs, Scheduler, start,
}
use phan_tan_dkron_giuaky.Server.Scheduler.Entries.{
  named, tally-Perm, tally-without_id-le, get_entry_job-none, tally-without_id,
}

module _ {k : Checks} (c : CronEngine k) where
  open c use {Engine, entries, add, remove}

  -- How many entries are of the job `n`.
  abbrev pub count : Engine → String → ℕ
  count e n = tally (named n) (entries e)

  -- No number is used twice.
  abbrev pub Once : Engine → Type 0
  Once e = (id : ℕ) → tally (has_id id) (entries e) ≤ 1

  remove-tally :
      (e : Engine) (id : ℕ) (test : Entry → Bool)
      → tally test (entries (remove e id)) ≡ tally test (without_id id (entries e))
  remove-tally e id test = tally-Perm test _ _ (c.remove-entries e id)

  -- One entry of the job goes, if there is one.
  pub remove_job_lem :
      (e : Engine) (n : String)
      → Once e
      → Once (remove_job c e n)
        × ((i : String)
            → count (remove_job c e n) i ≡ (if n == i then count e i - 1 else count e i))
  unfolding remove_job
  remove_job_lem e n once = elim (Option-cases (get_entry_job (entries e) n)) [
    | inl gone ↦
        rw (remove_job, gone)
          (once, λ i. ground (arith, get_entry_job-none (entries e) n gone, ==_iff n i))
    | inr (x, found) ↦
        rw (remove_job, found)
          (
            λ id. omega (
              arith,
              remove-tally e x.0 (has_id id),
              tally-without_id-le (has_id id) x.0 (entries e),
              once id,
            ),
            λ i. remove-tally e x.0 (named i) ∙ tally-without_id (entries e) n x i found once,
          )
  ]

  -- Each entry of the list takes one entry of its job away.
  pub clear_cron_lem :
      (xs : List Entry) (e : Engine)
      → Once e
      → Once (clear_cron c xs e)
        × ((i : String) → count (clear_cron c xs e) i ≡ count e i - tally (named i) xs)
  unfolding clear_cron tally
  clear_cron_lem [] e once = (once, λ i. omega arith)
  clear_cron_lem (x ∷ xs) e once =
      let (once', counts) = remove_job_lem e x.1.name once in
      let (once'', rest) = clear_cron_lem xs (remove_job c e x.1.name) once' in
      (once'', λ i. ground (arith, counts i, rest i))

  add_lem :
      (e : Engine) (spec : List ℕ) (j : Job) (s : Schedule)
      → parse k spec ≡ some s
      → Once e
      → (e' : Engine) × (add e spec j ≡ some e')
        × Once e'
        × ((i : String) → count e' i ≡ (if j.name == i then 1 + count e i else count e i))
  unfolding tally
  add_lem e spec j s parsed once =
      let (e', id, added, fresh, same) = c.add-entries e spec j s parsed in
      (
        e',
        added,
        λ i. ground (arith, tally-Perm (has_id i) _ _ same, once i, fresh),
        λ i. tally-Perm (named i) _ _ same,
      )

  -- `AddJob` starts with `RemoveJob`, whether or not there is an entry.
  drop_entry_lem : (e : Engine) (j : Job) → drop_entry c e j ≡ remove_job c e j.name
  unfolding drop_entry remove_job
  drop_entry_lem e j = elim (Option-cases (get_entry_job (entries e) j.name)) [
    | inl gone ↦ rw (drop_entry, remove_job, gone) refl
    | inr (x, found) ↦ rw (drop_entry, found) refl
  ]

  -- A scheduled job has one entry afterwards, any other none.
  pub add_job_lem :
      (e : Engine) (j : Job)
      → Once e
      → count e j.name ≤ 1
      → (scheduled j ≡ true → (s : Schedule) × (parse k (schedule_of j) ≡ some s))
      → ((add_job c e j).1 ≡ none)
        × Once (add_job c e j).0
        × ((i : String)
            → count (add_job c e j).0 i
              ≡ (if j.name == i then (if scheduled j then 1 else 0) else count e i))
  unfolding add_job scheduled
  add_job_lem e j once single parses =
      let (once', counts) = remove_job_lem e j.name once in
      rw (drop_entry_lem e j) (elim (Bool-cases (j.disabled || truthy j.parent_job)) [
        | inl left_out ↦ rw left_out (refl, once', λ i. ground (arith, counts i, ==_iff j.name i))
        | inr runs ↦
            let (s, parsed) = parses (ap not runs) in
            let (e', added, once'', more) =
              add_lem (remove_job c e j.name) (schedule_of j) j s parsed once' in
            rw runs
              (rw added (refl, once'', λ i. ground (arith, counts i, more i, ==_iff j.name i)))
      ])

-- A job of this name; such a job that is scheduled; a job that is scheduled and cannot be.
abbrev pub is_named : String → Job → Bool
is_named n j = j.name == n

abbrev pub runs_as : String → Job → Bool
runs_as n j = j.name == n && scheduled j

abbrev pub unready : Checks → Job → Bool
unready k j = scheduled j && is_none (parse k (schedule_of j))

pub ready_parses :
    (k : Checks) (j : Job)
    → unready k j ≡ false
    → scheduled j ≡ true
    → (s : Schedule) × (parse k (schedule_of j) ≡ some s)
unfolding is_none
ready_parses k j ready runs = elim (Option-cases (parse k (schedule_of j))) [
  | inl gone ↦ let no : true ≡ false = ground arith in cc
  | inr found ↦ found
]

module _ {k : Checks} (c : CronEngine k) where
  open c use {Engine, entries}

  -- The jobs have different names and no entries yet: each that is scheduled gets one.
  pub add_jobs_lem :
      (e : Engine) (js : List Job)
      → Once c e
      → ((i : String) → tally (is_named i) js ≤ 1)
      → ((i : String) → 0 < tally (is_named i) js → count c e i ≡ 0)
      → tally (unready k) js ≡ 0
      → ((add_jobs c e js).1 ≡ none)
        × Once c (add_jobs c e js).0
        × ((i : String) → count c (add_jobs c e js).0 i ≡ count c e i + tally (runs_as i) js)
  unfolding add_jobs tally
  add_jobs_lem e [] once single clear ready = (refl, once, λ i. omega arith)
  add_jobs_lem e (j ∷ js) once single clear ready =
      let none_yet : count c e j.name ≡ 0 = ground (arith, clear j.name, ==_iff j.name j.name) in
      let (added, once', counts) =
        add_job_lem c e j once (omega (arith, none_yet)) (ready_parses k j (ground arith)) in
      let (all, once'', rest) =
        add_jobs_lem (add_job c e j).0 js once' (λ i. ground (arith, single i))
          (λ i there. ground (arith, single i, clear i, counts i)) (ground arith) in
      rw (add_jobs, added)
        (all, once'', λ i. ground (arith, rest i, counts i, none_yet, ==_iff j.name i))

  pub start_started : (s : Scheduler c) (js : List Job) → s.started ≡ true → (start c s js).0 ≡ s
  unfolding start
  start_started s js on = rw (start, on) refl

  -- `Start` leaves exactly one entry for each job that is scheduled.
  pub start_lem :
      (s : Scheduler c) (js : List Job)
      → Once c s.cron
      → s.started ≡ false
      → ((i : String) → tally (is_named i) js ≤ 1)
      → tally (unready k) js ≡ 0
      → ((start c s js).1 ≡ none)
        × ((start c s js).0.started ≡ true)
        × Once c (start c s js).0.cron
        × ((i : String) → count c (start c s js).0.cron i ≡ tally (runs_as i) js)
  unfolding start
  start_lem s js once stopped single ready =
      let (once', cleared) = clear_cron_lem c (entries s.cron) s.cron once in
      let empty : (i : String) → count c (clear_cron c (entries s.cron) s.cron) i ≡ 0 =
        λ i. omega (arith, cleared i) in
      let (added, once'', counts) =
        add_jobs_lem (clear_cron c (entries s.cron) s.cron) js once' single (λ i there. empty i)
          ready in
      rw (start, stopped) (rw added (refl, refl, once'', λ i. omega (arith, counts i, empty i)))
