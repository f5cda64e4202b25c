-- ===== src/Server/Leader/Reach.antt =====
-- The entries of the cron engine in every state of a server: `dkron/dkron/scheduler.go` against
-- `dkron/dkron/store.go`.
use phan_tan_dkron_giuaky.Common.{
  ℕ, suc, ◌≡◌, sym, ap, ◌∙◌, Bool, true, false, not, ◌||◌, inl, inr, some, none, Option, List,
  String, ℤ, string_eq, if◌then◌else◌, get, subst, Bool-cases, arith,
}
use phan_tan_dkron_giuaky.Diagram.Defs.{truthy}
use phan_tan_dkron_giuaky.Server.Job.{Job, validate, is_none}
use phan_tan_dkron_giuaky.Server.Cron.{Checks}
use phan_tan_dkron_giuaky.Server.Store.{parent_missing}
use phan_tan_dkron_giuaky.Server.Store.Links.{Linked, scheduled, scheduled_at, scheduled_at_lem}
use phan_tan_dkron_giuaky.Server.Store.Tree.{set_job-Linked}
use phan_tan_dkron_giuaky.Server.Store.Deletes.{delete_job-Linked}
use phan_tan_dkron_giuaky.Server.Executions.{Db, set_execution_done, delete_executions}
use phan_tan_dkron_giuaky.Server.Executions.Orphans.{reconcile}
use phan_tan_dkron_giuaky.Server.History.{
  empty-Linked, set_execution_done-Linked, delete_executions-Linked,
}
use phan_tan_dkron_giuaky.Server.Scheduler.{tally, CronEngine, start, stop}
use phan_tan_dkron_giuaky.Server.Scheduler.Entries.{named, tally-Perm}
use phan_tan_dkron_giuaky.Server.Scheduler.Laws.{
  count, start_started, start_lem, is_named, runs_as, unready,
}
use phan_tan_dkron_giuaky.Server.Scheduler.Zones.{Zoned}
use phan_tan_dkron_giuaky.Server.Leader.{get_jobs, Leader, create_or_update, establish, revoke}
use phan_tan_dkron_giuaky.Server.Leader.Moves.{
  Move, Reached, new_server, saved, restored, toggled, deleted, begun, done, cleared, followed_save,
  followed_delete, established, revoked, new, next, ListsOwn,
}
use phan_tan_dkron_giuaky.Server.Leader.Ready.{get_jobs-named, get_jobs-runs, get_jobs-ready}
use phan_tan_dkron_giuaky.Server.Leader.InStep.{InStep, kept-InStep, grpc_set_job-InStep}
use phan_tan_dkron_giuaky.Server.Leader.Untouched.{
  scheduled_at-done, scheduled_at-cleared, reconcile-Kept,
}
use phan_tan_dkron_giuaky.Server.Leader.Starts.{run_stores-InStep}
use phan_tan_dkron_giuaky.Server.Leader.Calls.{
  create_code, create_or_update-InStep, toggle-InStep, delete-InStep,
}
use mathlib.Core.List.{Permᴰ}

module _ {k : Checks} (c : CronEngine k) (zoned : Zoned k) where
  start-InStep :
      (l : Leader c) (jobs : List Job)
      → InStep c zoned l
      → Permᴰ jobs (get_jobs l.jobs)
      → InStep c zoned (record l { sched = (start c l.sched jobs).0 })
  start-InStep l jobs v same = elim (Bool-cases l.sched.started) [
    | inl on ↦
        subst (λ s. InStep c zoned (record l { sched = s })) (sym (start_started c l.sched jobs on))
          v
    | inr off ↦
        let sound = v.linked.sound in
        let (fine, on, once, counts) =
          start_lem c l.sched jobs v.once off
            (λ i. rw (tally-Perm (is_named i) _ _ same) (get_jobs-named k zoned l.jobs sound i))
            (tally-Perm (unready k) _ _ same ∙ get_jobs-ready k zoned l.jobs sound) in
        let entries : (i : String)
            → count c (start c l.sched jobs).0.cron i ≡ (if scheduled_at l.jobs i then 1 else 0) =
          λ i. counts i ∙ tally-Perm (runs_as i) _ _ same ∙ get_jobs-runs k zoned l.jobs sound i in
        record {
          linked = v.linked;
          once = once;
          single = λ i. ground (arith, entries i);
          entries_are = λ on i. entries i;
        }
  ]

  establish-InStep :
      (l : Leader c) (jobs : List Job) (active : Option (List (List ℕ))) (clock : String → ℤ)
      (db : Db)
      → InStep c zoned l
      → db.jobs ≡ l.jobs
      → Permᴰ jobs (get_jobs l.jobs)
      → InStep c zoned (establish c l jobs active clock db).0
  unfolding establish
  establish-InStep l jobs none clock db v stored same = start-InStep l jobs v same
  establish-InStep l jobs (some active) clock db v stored same =
      let linked = subst (Linked k) (sym stored) v.linked in
      let kept = reconcile-Kept k active clock db jobs linked in
      kept-InStep c zoned (record l { sched = (start c l.sched jobs).0 })
        (reconcile active clock db jobs).jobs (start-InStep l jobs v same) kept.linked
        (λ on i. kept.same i ∙ ap (λ m. scheduled_at m i) stored)

  revoke-InStep : (l : Leader c) → InStep c zoned l → InStep c zoned (revoke c l)
  unfolding revoke stop
  revoke-InStep l v = record {
    linked = v.linked;
    once = v.once;
    single = v.single;
    entries_are = λ on i. cc on;
  }

  Move-InStep : (l l' : Leader c) → InStep c zoned l → Move c l l' → InStep c zoned l'
  Move-InStep l l' v (saved now fuel paused j code own ran) =
      let (l2, ran2, v') = create_or_update-InStep c zoned now fuel paused l j v own in
      let same : l2 ≡ l' = cc in subst (InStep c zoned) same v'
  Move-InStep l l' v (restored now fuel j f valid own ran) =
      let (l2, ran2, v') = grpc_set_job-InStep c zoned now fuel l j v valid own in
      let same : l2 ≡ l' = cc in subst (InStep c zoned) same v'
  Move-InStep l l' v (toggled now fuel name code ran) =
      let (l2, ran2, v') = toggle-InStep c zoned now fuel l name v in
      let same : l2 ≡ l' = cc in subst (InStep c zoned) same v'
  Move-InStep l l' v (deleted now fuel name code ran) =
      let (l2, ran2, v') = delete-InStep c zoned now fuel l name v in
      let same : l2 ≡ l' = cc in subst (InStep c zoned) same v'
  Move-InStep l l' v (begun now fuel name next_of_entry f is) =
      let (r, ran2, v') = run_stores-InStep c zoned now fuel l name next_of_entry v in
      let same : r.0 ≡ l' = cc in subst (InStep c zoned) same v'
  Move-InStep l l' v (done db e stored ran) =
      let linked = subst (Linked k) (sym stored) v.linked in
      subst (InStep c zoned) ran (
        kept-InStep c zoned l (set_execution_done db e).0.jobs v
          (set_execution_done-Linked k db linked e)
          (λ on i. scheduled_at-done k db e linked i ∙ ap (λ m. scheduled_at m i) stored))
  Move-InStep l l' v (cleared db name stored ran) =
      let linked = subst (Linked k) (sym stored) v.linked in
      subst (InStep c zoned) ran (
        kept-InStep c zoned l (delete_executions db name).0.jobs v
          (delete_executions-Linked k db linked name)
          (λ on i. scheduled_at-cleared k db name linked i ∙ ap (λ m. scheduled_at m i) stored))
  Move-InStep l l' v (followed_save now fuel j m e own off ran is) =
      let (m2, ran2, linked, parents, runs) = set_job-Linked k now fuel l.jobs j v.linked own in
      let same : m2 ≡ m = cc in
      subst (InStep c zoned) is
        (kept-InStep c zoned l m v (subst (Linked k) same linked) (λ on i. cc))
  Move-InStep l l' v (followed_delete now fuel name m e off ran is) =
      let (m2, ran2, linked, parents, runs, kept) =
        delete_job-Linked k now fuel l.jobs name v.linked in
      let same : m2 ≡ m = cc in
      subst (InStep c zoned) is
        (kept-InStep c zoned l m v (subst (Linked k) same linked) (λ on i. cc))
  Move-InStep l l' v (established jobs active clock db stored same ran) =
      subst (InStep c zoned) ran (establish-InStep l jobs active clock db v stored same)
  Move-InStep l l' v (revoked ran) = subst (InStep c zoned) ran (revoke-InStep l v)

  new-InStep : InStep c zoned (new_server c)
  unfolding tally
  new-InStep = record {
    linked = empty-Linked k;
    once = λ id. rw c.entries-new (omega arith);
    single = λ i. rw c.entries-new (omega arith);
    entries_are = λ on i. cc on;
  }

  pub Reached-InStep : (l : Leader c) → Reached c l → InStep c zoned l
  Reached-InStep l new = new-InStep
  Reached-InStep l (next r move) = Move-InStep _ l (Reached-InStep _ r) move

  -- Take a server that began empty and has come to its state by steps that come one after the
  -- other: calls of the API that save, toggle or delete a job, jobs of a file that
  -- `restoreHandler` sets, starts and ends of executions, removals of a job's executions, jobs
  -- that another leader saves or deletes while the scheduler of this server is stopped, and
  -- changes of leadership. Each saved job lists no other dependent jobs than the store does for
  -- it. No snapshot is loaded. The cron engine has one entry more for each schedule that it takes,
  -- and the cron package takes a valid schedule also with the name of a time zone before it. Then,
  -- while the scheduler is started, a name has one entry in the cron engine if it is that of a job
  -- of the store that is not disabled and has no parent, and none else.
  pub Reached-entries :
      (l : Leader c)
      → Reached c l
      → l.sched.started ≡ true
      → (n : String)
      → tally (named n) (c.entries l.sched.cron) ≡ (elim (get l.jobs n) [
        | none ↦ 0
        | some j ↦ if j.disabled || truthy j.parent_job then 0 else 1
      ])
  unfolding scheduled
  Reached-entries l r on n =
      (Reached-InStep l r).entries_are on n ∙ ground (arith, scheduled_at_lem l.jobs n)

  -- Take a server that began empty and has come to its state by steps that come one after the
  -- other: calls of the API that save, toggle or delete a job, jobs of a file that
  -- `restoreHandler` sets, starts and ends of executions, removals of a job's executions, jobs
  -- that another leader saves or deletes while the scheduler of this server is stopped, and
  -- changes of leadership. Each saved job lists no other dependent jobs than the store does for
  -- it. No snapshot is loaded. The cron engine has one entry more for each schedule that it takes,
  -- and the cron package takes a valid schedule also with the name of a time zone before it. Then
  -- a further job of the API that lists no other dependent jobs than the store does is answered,
  -- with fuel for one call of `SetJob` by itself: with 503 while new jobs are paused, else with
  -- 400 if `Validate` refuses it, else with 404 if its parent is not in the store, and else with
  -- 201. No other error is met.
  pub Reached-answers :
      (l : Leader c) (now : ℤ) (fuel : ℕ) (paused : Bool) (j : Job)
      → Reached c l
      → ListsOwn l.jobs j
      → (l' : Leader c) × (create_or_update c now (suc (suc fuel)) paused l j
          ≡ some (
            l',
            if paused
                then 503
                else if not (is_none (validate k j))
                then 400
                else if parent_missing l.jobs j
                then 404
                else 201,
          ))
  unfolding create_code
  Reached-answers l now fuel paused j r own =
      let (l', answered, v) =
        create_or_update-InStep c zoned now fuel paused l j (Reached-InStep l r) own in
      (l', answered)

  -- Take a server that began empty and has come to its state by steps that come one after the
  -- other: calls of the API that save, toggle or delete a job, jobs of a file that
  -- `restoreHandler` sets, starts and ends of executions, removals of a job's executions, jobs
  -- that another leader saves or deletes while the scheduler of this server is stopped, and
  -- changes of leadership. Each saved job lists no other dependent jobs than the store does for
  -- it. No snapshot is loaded. The cron engine has one entry more for each schedule that it takes,
  -- and the cron package takes a valid schedule also with the name of a time zone before it. Then,
  -- if the scheduler is stopped, `establishLeadership` starts it without an error, in whatever
  -- order the store lists the jobs and whatever stale executions it ends before, and afterwards
  -- every job of the store that is not disabled and has no parent has its entry.
  pub Reached-establish :
      (l : Leader c) (jobs : List Job) (active : Option (List (List ℕ))) (clock : String → ℤ)
      (db : Db)
      → Reached c l
      → l.sched.started ≡ false
      → db.jobs ≡ l.jobs
      → Permᴰ jobs (get_jobs l.jobs)
      → (l' : Leader c) × (establish c l jobs active clock db ≡ (l', none))
        × (l'.sched.started ≡ true)
        × ((n : String) (j : Job)
            → get l'.jobs n ≡ some j
            → j.disabled ≡ false
            → truthy j.parent_job ≡ false
            → tally (named n) (c.entries l'.sched.cron) ≡ 1)
  unfolding establish scheduled
  Reached-establish l jobs active clock db r off stored same =
      let v = Reached-InStep l r in
      let sound = v.linked.sound in
      let (fine, on, once, counts) =
        start_lem c l.sched jobs v.once off
          (λ i. rw (tally-Perm (is_named i) _ _ same) (get_jobs-named k zoned l.jobs sound i))
          (tally-Perm (unready k) _ _ same ∙ get_jobs-ready k zoned l.jobs sound) in
      let v' = establish-InStep l jobs active clock db v stored same in
      let l' = (establish c l jobs active clock db).0 in
      (
        l',
        ap (λ f. (l', f)) fine,
        on,
        λ n j found enabled root. v'.entries_are on n ∙ ground (arith, scheduled_at_lem l'.jobs n),
      )
