-- ===== src/Server/Leader/Ready.antt =====
-- The jobs that `establishLeadership` of `dkron/dkron/leader.go` reads and hands to the scheduler.
use phan_tan_dkron_giuaky.Common.{
  ◌≡◌, ◌≤◌, refl, ◌∙◌, Bool, true, false, ◌&&◌, some, none, List, [], ◌∷◌, String, ◌==◌, ==_iff,
  string_eq, if◌then◌else◌, get, has_key, has_key_of_get, get_of_not_has_key, keys, Distinct, arith,
}
use phan_tan_dkron_giuaky.Server.Job.{Job}
use phan_tan_dkron_giuaky.Server.Cron.{Checks}
use phan_tan_dkron_giuaky.Server.Store.{Jobs}
use phan_tan_dkron_giuaky.Server.Store.Links.{scheduled, scheduled_at, scheduled_at_lem, Sound}
use phan_tan_dkron_giuaky.Server.Scheduler.{tally}
use phan_tan_dkron_giuaky.Server.Scheduler.Laws.{is_named, runs_as, unready}
use phan_tan_dkron_giuaky.Server.Scheduler.Zones.{Zoned, validate-unready}
use phan_tan_dkron_giuaky.Server.Leader.{get_jobs}

-- What holds of every job of the map holds of those behind the first.
get-tail :
    (n : String) (j : Job) (m : Jobs) (i : String) (a : Job)
    → Distinct (keys ((n, j) ∷ m))
    → get m i ≡ some a
    → get ((n, j) ∷ m) i ≡ some a
unfolding get has_key
get-tail n j m i a apart found = ground (arith, has_key_of_get m i a found, ==_iff n i)

tally-get_jobs_none :
    (test : Job → Bool) (m : Jobs)
    → Distinct (keys m)
    → ((i : String) (a : Job) → get m i ≡ some a → test a ≡ false)
    → tally test (get_jobs m) ≡ 0
unfolding tally get_jobs get
tally-get_jobs_none test [] apart fails = refl
tally-get_jobs_none test ((n, j) ∷ m) apart fails = ground (
  arith,
  fails n j,
  ==_iff n n,
  tally-get_jobs_none test m apart.1 (λ i a found. fails i a (get-tail n j m i a apart found)),
)

-- Of each name the map has one job.
tally-get_jobs :
    (test : Job → Bool) (m : Jobs) (i : String)
    → Distinct (keys m)
    → ((n : String) (j : Job) → get m n ≡ some j → j.name ≡ n)
    → tally (λ j. j.name == i && test j) (get_jobs m)
      ≡ (elim (get m i) [ none ↦ 0 | some j ↦ if test j then 1 else 0 ])
unfolding tally get_jobs get has_key
tally-get_jobs test [] i apart named = refl
tally-get_jobs test ((n, j) ∷ m) i apart named = ground (
  arith,
  named n j,
  tally-get_jobs test m i apart.1 (λ n' a found. named n' a (get-tail n j m n' a apart found)),
  get_of_not_has_key m n apart.0,
  ==_iff n n,
  ==_iff n i,
  ==_iff j.name i,
)

tally-and-true :
    (i : String) (js : List Job) → tally (λ j. j.name == i && true) js ≡ tally (is_named i) js
unfolding tally
tally-and-true i [] = refl
tally-and-true i (j ∷ js) = ground (arith, tally-and-true i js)

module _ (k : Checks) (zoned : Zoned k) (m : Jobs) (s : Sound k m) where
  pub get_jobs-named : (i : String) → tally (is_named i) (get_jobs m) ≤ 1
  get_jobs-named i =
      ground
        (arith, tally-get_jobs (λ j. true) m i s.distinct s.named, tally-and-true i (get_jobs m))

  pub get_jobs-runs :
      (i : String) → tally (runs_as i) (get_jobs m) ≡ (if scheduled_at m i then 1 else 0)
  get_jobs-runs i =
      tally-get_jobs scheduled m i s.distinct s.named ∙ ground (arith, scheduled_at_lem m i)

  pub get_jobs-ready : tally (unready k) (get_jobs m) ≡ 0
  get_jobs-ready =
      tally-get_jobs_none (unready k) m s.distinct
        (λ i j found. validate-unready k zoned j (s.valid i j found))
