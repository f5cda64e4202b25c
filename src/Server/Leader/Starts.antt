-- ===== src/Server/Leader/Starts.antt =====
-- The beginning of `Run` of `dkron/dkron/run.go` leaves the scheduler and the store in step.
use phan_tan_dkron_giuaky.Common.{
  ℕ, suc, ◌≡◌, refl, ◌∙◌, inl, inr, Option, some, none, String, ℤ, ==_iff, string_eq, get,
  Bool-cases, Option-cases, arith,
}
use phan_tan_dkron_giuaky.Diagram.Defs.{truthy}
use phan_tan_dkron_giuaky.Server.Job.{Job, Error, validate, stored, is_none}
use phan_tan_dkron_giuaky.Server.Cron.{Checks}
use phan_tan_dkron_giuaky.Server.Store.{Jobs, parent_missing}
use phan_tan_dkron_giuaky.Server.Store.Links.{dependent_found, scheduled, scheduled_at_lem}
use phan_tan_dkron_giuaky.Server.Store.Tree.{refusal, refusal_valid, set_job-Linked}
use phan_tan_dkron_giuaky.Server.Scheduler.{
  CronEngine, Entry, Fault, of_store, no_entry, get_entry_job,
}
use phan_tan_dkron_giuaky.Server.Scheduler.Zones.{Zoned}
use phan_tan_dkron_giuaky.Server.Leader.{Leader, passed_on, apply_set_job, run_stores}
use phan_tan_dkron_giuaky.Server.Leader.InStep.{InStep, kept-InStep}

module _ {k : Checks} (c : CronEngine k) (zoned : Zoned k) (now : ℤ) (fuel : ℕ) where
  -- Another next time changes nothing that the scheduler looks at.
  restored :
      (l : Leader c) (n : String) (j : Job) (t : ℤ)
      → InStep c zoned l
      → get l.jobs n ≡ some j
      → (m : Jobs) × (apply_set_job c now (suc (suc fuel)) l.jobs (stored (record j { next = t }))
          ≡ some (m, none))
        × InStep c zoned (record l { jobs = m })
  unfolding apply_set_job passed_on stored validate parent_missing scheduled is_none
  restored l n j t v found =
      let named = v.linked.sound.named n j found in
      let (m, saved, linked, parents, runs) =
        set_job-Linked k now fuel l.jobs (stored (record j { next = t })) v.linked
          (λ x listed. ground (arith, dependent_found l.jobs n x j found, named)) in
      let accepted : refusal k l.jobs (stored (record j { next = t })) ≡ none =
        refusal_valid k l.jobs (stored (record j { next = t })) (v.linked.sound.valid n j found)
        ∙ rw (v.linked.sound.anchored n j found) refl in
      (
        m,
        rw saved (rw accepted refl),
        kept-InStep c zoned l m v linked (λ on i.
            runs i
            ∙ rw accepted (ground (arith, scheduled_at_lem l.jobs i, ==_iff j.name i, named))),
      )

  pub run_stores-InStep :
      (l : Leader c) (n : String) (next_of_entry : Entry → ℤ)
      → InStep c zoned l
      → (r : Leader c × Option Fault) × (run_stores c now (suc (suc fuel)) l n next_of_entry
          ≡ some r)
        × InStep c zoned r.0
  unfolding run_stores
  run_stores-InStep l n next_of_entry v = elim (Option-cases (get l.jobs n)) [
    | inl gone ↦ ((l, some (of_store Error.not_found)), rw (run_stores, gone) refl, v)
    | inr (j, found) ↦ elim (Bool-cases (truthy j.parent_job)) [
      | inl child ↦ ((l, none), rw (run_stores, found) (rw child refl), v)
      | inr root ↦ elim (Option-cases (get_entry_job (c.entries l.sched.cron) n)) [
        | inl missing ↦ ((l, some no_entry), rw (run_stores, found) (rw root (rw missing refl)), v)
        | inr (x, there) ↦
            let (m, saved, v') = restored l n j (next_of_entry x) v found in
            (
              (record l { jobs = m }, none),
              rw (run_stores, found) (rw root (rw there (rw saved refl))),
              v',
            )
      ]
    ]
  ]
