-- ===== src/Server/Leader/InStep.antt =====
-- The scheduler of `dkron/dkron/scheduler.go` and the jobs of `dkron/dkron/store.go` stay in step through
-- every change of a job and of the leadership.
use phan_tan_dkron_giuaky.Common.{
  ℕ, suc, ◌≡◌, ◌≤◌, refl, ap, ◌∙◌, true, false, inl, inr, Option, some, none, String, ℤ, ◌==◌,
  string_eq, if◌then◌else◌, get, Bool-cases, Option-cases, arith,
}
use phan_tan_dkron_giuaky.Server.Job.{Job, validate, stored, is_none, parent_not_found}
use phan_tan_dkron_giuaky.Server.Cron.{Checks}
use phan_tan_dkron_giuaky.Server.Store.{Jobs, parent_missing, delete_job}
use phan_tan_dkron_giuaky.Server.Store.Links.{Linked, scheduled, scheduled_at, validate-stored}
use phan_tan_dkron_giuaky.Server.Store.Tree.{refusal, refusal_valid, set_job-Linked}
use phan_tan_dkron_giuaky.Server.Store.Deletes.{removal, deleted_there, delete_job-Linked}
use phan_tan_dkron_giuaky.Server.Scheduler.{CronEngine, Fault, of_store, add_job, remove_job}
use phan_tan_dkron_giuaky.Server.Scheduler.Laws.{
  count, Once, remove_job_lem, add_job_lem, ready_parses,
}
use phan_tan_dkron_giuaky.Server.Scheduler.Zones.{Zoned, validate-unready}
use phan_tan_dkron_giuaky.Server.Leader.{
  passed_on, Leader, apply_set_job, grpc_set_job, grpc_delete_job,
}
use phan_tan_dkron_giuaky.Server.Leader.Moves.{ListsOwn}

-- The error of `SetJob` on the leader
unfoldable pub set_fault : Jobs → Job → Option Fault
set_fault m j = if parent_missing m j then some (of_store parent_not_found) else none

-- The error of `DeleteJob` on the leader
unfoldable pub delete_fault : Jobs → String → Option Fault
delete_fault m n = elim (removal m n) [ none ↦ none | some e ↦ some (of_store e) ]

module _ {k : Checks} (c : CronEngine k) (zoned : Zoned k) where
  -- Parents and lists of dependent jobs agree, no job has two entries, and while the scheduler is started
  -- just the jobs that are enabled and have no parent have one.
  pub record InStep (l : Leader c) : Type 0 where
    pub linked : Linked k l.jobs
    pub once : Once c l.sched.cron
    pub single : (i : String) → count c l.sched.cron i ≤ 1
    pub entries_are :
        l.sched.started ≡ true
        → (i : String) → count c l.sched.cron i ≡ (if scheduled_at l.jobs i then 1 else 0)

  -- The scheduler need not know of a change that leaves alone what is scheduled.
  pub kept-InStep :
      (l : Leader c) (m : Jobs)
      → InStep l
      → Linked k m
      → (l.sched.started ≡ true → (i : String) → scheduled_at m i ≡ scheduled_at l.jobs i)
      → InStep (record l { jobs = m })
  kept-InStep l m v linked same = record {
    linked = linked;
    once = v.once;
    single = v.single;
    entries_are = λ on i. ground (arith, v.entries_are on i, same on i);
  }

  added-InStep :
      (l : Leader c) (j : Job) (m : Jobs)
      → InStep l
      → validate k j ≡ none
      → Linked k m
      → ((i : String)
          → scheduled_at m i ≡ (if j.name == i then scheduled j else scheduled_at l.jobs i))
      → ((add_job c l.sched.cron j).1 ≡ none)
        × InStep
            (record l { jobs = m; sched = record l.sched { cron = (add_job c l.sched.cron j).0 } })
  added-InStep l j m v valid linked runs =
      let (added, once, counts) =
        add_job_lem c l.sched.cron j v.once (v.single j.name)
          (ready_parses k j (validate-unready k zoned j valid)) in
      (
        added,
        record {
          linked = linked;
          once = once;
          single = λ i. ground (arith, counts i, v.single i);
          entries_are = λ on i. ground (arith, counts i, runs i, v.entries_are on i);
        },
      )

  pub grpc_set_job-InStep :
      (now : ℤ) (fuel : ℕ) (l : Leader c) (j : Job)
      → InStep l
      → validate k j ≡ none
      → ListsOwn l.jobs j
      → (l' : Leader c) × (grpc_set_job c now (suc (suc fuel)) l j ≡ some (l', set_fault l.jobs j))
        × InStep l'
  unfolding set_fault grpc_set_job apply_set_job passed_on stored parent_missing is_none
  grpc_set_job-InStep now fuel l j v valid own =
      let (m, saved, linked, parents, runs) =
        set_job-Linked k now fuel l.jobs (stored j) v.linked own in
      let refused : refusal k l.jobs (stored j)
          ≡ (if parent_missing l.jobs j then some parent_not_found else none) =
        refusal_valid k l.jobs (stored j) (validate-stored k j ∙ valid) in
      elim (Bool-cases (parent_missing l.jobs j)) [
        | inl gone ↦ (
          record l { jobs = m },
          rw saved (rw refused (rw gone refl)),
          kept-InStep l m v linked (λ on i. runs i ∙ rw refused (rw gone refl)),
        )
        | inr there ↦
            let (added, v') =
              added-InStep l (stored j) m v (validate-stored k j ∙ valid) linked
                (λ i. runs i ∙ rw refused (rw there refl)) in
            (
              record l {
                jobs = m;
                sched = record l.sched { cron = (add_job c l.sched.cron (stored j)).0 };
              },
              rw saved (rw refused (rw there (rw added refl))),
              v',
            )
      ]

  removed-InStep :
      (l : Leader c) (n : String) (m : Jobs)
      → InStep l
      → Linked k m
      → ((i : String) → scheduled_at m i ≡ (if n == i then false else scheduled_at l.jobs i))
      → InStep
          (record l { jobs = m; sched = record l.sched { cron = remove_job c l.sched.cron n } })
  removed-InStep l n m v linked runs =
      let (once, counts) = remove_job_lem c l.sched.cron n v.once in
      record {
        linked = linked;
        once = once;
        single = λ i. ground (arith, counts i, v.single i);
        entries_are = λ on i. ground (arith, counts i, runs i, v.single i, v.entries_are on i);
      }

  grpc_delete_found :
      (now : ℤ) (fuel : ℕ) (l : Leader c) (n : String) (m : Jobs) (j : Job)
      → delete_job k now fuel l.jobs n ≡ some (m, none)
      → get l.jobs n ≡ some j
      → grpc_delete_job c now fuel l n
        ≡ some (
          record l { jobs = m; sched = record l.sched { cron = remove_job c l.sched.cron j.name } },
          none,
        )
  unfolding grpc_delete_job
  grpc_delete_found now fuel l n m j gone found = ground arith

  pub grpc_delete_job-InStep :
      (now : ℤ) (fuel : ℕ) (l : Leader c) (n : String)
      → InStep l
      → (l' : Leader c) × (grpc_delete_job c now (suc fuel) l n ≡ some (l', delete_fault l.jobs n))
        × InStep l'
  unfolding grpc_delete_job is_none delete_fault
  grpc_delete_job-InStep now fuel l n v =
      let (m, gone, linked, parents, runs, refused) =
        delete_job-Linked k now fuel l.jobs n v.linked in
      elim (Option-cases (removal l.jobs n)) [
        | inl free ↦
            let (j, found) = deleted_there l.jobs n free in
            let named : j.name ≡ n = v.linked.sound.named n j found in
            (
              record l {
                jobs = m;
                sched = record l.sched { cron = remove_job c l.sched.cron j.name };
              },
              grpc_delete_found now (suc fuel) l n m j (gone ∙ ap (λ o. some (m, o)) free) found
                  ∙ rw (delete_fault, free) refl,
              removed-InStep l j.name m v linked (λ i. runs i ∙ rw free (rw named refl)),
            )
        | inr (e, kept) ↦ (
          record l { jobs = m },
          rw gone (rw (delete_fault, kept) refl),
          kept-InStep l m v linked (λ on i. runs i ∙ rw kept refl),
        )
      ]
