-- ===== src/Server/Store/Restamp.antt =====
-- A job of the store is replaced by one that differs in its counters, status and times, as
-- `SetExecutionDone` and `DeleteExecutions` of `dkron/dkron/store.go` do.
use phan_tan_dkron_giuaky.Common.{
  ◌≡◌, ap, some, String, ==_iff, string_eq, get, get-put, put, has, keys-put-Distinct, arith,
}
use phan_tan_dkron_giuaky.Server.Job.{Job, validate}
use phan_tan_dkron_giuaky.Server.Cron.{Checks}
use phan_tan_dkron_giuaky.Server.Store.{Jobs}
use phan_tan_dkron_giuaky.Server.Store.Links.{
  parent_at-put, dependent-put, Sound, Linked, parent_at_found, dependent_found,
}
use phan_tan_dkron_giuaky.Server.Store.Parents.{missing-put, missing-name}

pub record Alike (k : Checks) (j j' : Job) : Type 0 where
  pub names : j'.name ≡ j.name
  pub parents : j'.parent_job ≡ j.parent_job
  pub lists : j'.dependent_jobs ≡ j.dependent_jobs
  pub validity : validate k j' ≡ validate k j

module _ (k : Checks) (m : Jobs) (n : String) (j j' : Job) (l : Linked k m)
    (found : get m n ≡ some j) (alike : Alike k j j') where
  restamp-Sound : Sound k (put m n j')
  restamp-Sound = record {
    distinct = keys-put-Distinct m n j' l.sound.distinct;
    named = λ i c there. ground (
      arith,
      get-put m n i j',
      l.sound.named i c,
      l.sound.named n j found,
      alike.names,
      ==_iff n i,
    );
    valid = λ i c there.
        ground
          (arith, get-put m n i j', l.sound.valid i c, l.sound.valid n j found, alike.validity);
    anchored = λ i c there. missing-put m n j' c (
        ground (
          arith,
          get-put m n i j',
          l.sound.anchored i c,
          l.sound.anchored n j found,
          missing-name m j' j alike.parents,
        ));
  }

  pub restamp-Linked : Linked k (put m n j')
  restamp-Linked = record {
    sound = restamp-Sound;
    agree = λ p c nonempty. ground (
      arith,
      parent_at-put m n j' c,
      dependent-put m n j' p c,
      parent_at_found m n j found,
      dependent_found m n c j found,
      l.agree p c nonempty,
      alike.parents,
      ==_iff n c,
      ==_iff n p,
      ap (λ ds. has ds c) alike.lists,
    );
  }
