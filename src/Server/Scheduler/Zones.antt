-- ===== src/Server/Scheduler/Zones.antt =====
-- The schedules that `AddJob` of `dkron/dkron/scheduler.go` hands to the cron engine, and what the parser
-- of `dkron/extcron/` makes of them.
use phan_tan_dkron_giuaky.Common.{
  ℕ, ◌≡◌, refl, ◌∙◌, true, false, ◌&&◌, inl, inr, some, none, List, [], ◌∷◌, String, string_eq,
  codes_eq, if◌then◌else◌, Bool-cases, Option-cases, codes_of, arith,
}
use phan_tan_dkron_giuaky.Diagram.Defs.{truthy}
use phan_tan_dkron_giuaky.Server.Job.{Job, validate, hashed, is_none}
use phan_tan_dkron_giuaky.Server.Schedule.{has_prefix}
use phan_tan_dkron_giuaky.Server.Cron.{Checks, Schedule, cron, parse}
use phan_tan_dkron_giuaky.Server.Store.Links.{scheduled}
use phan_tan_dkron_giuaky.Server.Scheduler.{takes_zone, in_zone, schedule_of}
use phan_tan_dkron_giuaky.Server.Scheduler.Laws.{unready}

-- The cron package takes a schedule with the name of a time zone before it, if it takes the schedule
-- alone, which names no zone and is no descriptor, and there is such a zone.
pub record Zoned (k : Checks) : Type 0 where
  pub with_zone :
      (zone : String) (schedule : List ℕ)
      → truthy zone ≡ true
      → k.location_exists zone ≡ true
      → takes_zone schedule ≡ true
      → k.cron_parses schedule ≡ true
      → k.cron_parses (in_zone zone schedule) ≡ true

-- Only the package reads what does not begin with `@`.
parse_plain :
    (k : Checks) (schedule : List ℕ)
    → has_prefix (codes_of "@") schedule ≡ false
    → parse k schedule ≡ (if k.cron_parses schedule then some (cron schedule) else none)
unfolding parse has_prefix codes_of
parse_plain k [] plain = refl
parse_plain k (c ∷ s) plain = ground arith

parse_plain_some :
    (k : Checks) (schedule : List ℕ)
    → has_prefix (codes_of "@") schedule ≡ false
    → k.cron_parses schedule ≡ true
    → (s : Schedule) × (parse k schedule ≡ some s)
parse_plain_some k schedule plain parses =
    (cron schedule, parse_plain k schedule plain ∙ rw parses refl)

plain_parses :
    (k : Checks) (schedule : List ℕ) (s : Schedule)
    → has_prefix (codes_of "@") schedule ≡ false
    → parse k schedule ≡ some s
    → k.cron_parses schedule ≡ true
plain_parses k schedule s plain parsed = ground (arith, parse_plain k schedule plain)

takes_zone-plain :
    (schedule : List ℕ) → takes_zone schedule ≡ true → has_prefix (codes_of "@") schedule ≡ false
unfolding takes_zone codes_of
takes_zone-plain schedule takes = ground arith

in_zone-plain :
    (zone : String) (schedule : List ℕ) → has_prefix (codes_of "@") (in_zone zone schedule) ≡ false
unfolding has_prefix codes_of
in_zone-plain zone schedule = refl

validate-zone : (k : Checks) (j : Job) → validate k j ≡ none → k.location_exists j.timezone ≡ true
unfolding validate
validate-zone k j valid = ground arith

validate-parses :
    (k : Checks) (j : Job)
    → validate k j ≡ none
    → scheduled j ≡ true
    → (s : Schedule) × (parse k (hashed j) ≡ some s)
unfolding validate scheduled
validate-parses k j valid runs = elim (Option-cases (parse k (hashed j))) [
  | inl gone ↦ let no : true ≡ false = ground arith in cc
  | inr found ↦ found
]

module _ (k : Checks) (zoned : Zoned k) where
  schedule_of_parses :
      (j : Job)
      → validate k j ≡ none
      → scheduled j ≡ true
      → (s : Schedule) × (parse k (schedule_of j) ≡ some s)
  unfolding schedule_of
  schedule_of_parses j valid runs =
      let (s, parsed) = validate-parses k j valid runs in
      elim (Bool-cases (truthy j.timezone && takes_zone (hashed j))) [
        | inl with_zone ↦
            let takes : takes_zone (hashed j) ≡ true = ground arith in
            rw with_zone (
              parse_plain_some k (in_zone j.timezone (hashed j))
                (in_zone-plain j.timezone (hashed j))
                (zoned.with_zone j.timezone (hashed j) (ground arith) (validate-zone k j valid)
                  takes (plain_parses k (hashed j) s (takes_zone-plain (hashed j) takes) parsed)))
        | inr alone ↦ rw alone (s, parsed)
      ]

  -- What `Validate` lets in can be scheduled.
  pub validate-unready : (j : Job) → validate k j ≡ none → unready k j ≡ false
  unfolding is_none
  validate-unready j valid = elim (Bool-cases (scheduled j)) [
    | inl runs ↦ let (s, parsed) = schedule_of_parses j valid runs in rw runs (rw parsed refl)
    | inr rests ↦ rw rests refl
  ]
