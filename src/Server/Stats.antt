-- ===== src/Server/Stats.antt =====
-- `GetExecutionStats` of `dkron/dkron/store.go`: the numbers of the last days, from the oldest to
-- today's.
use phan_tan_dkron_giuaky.Common.{
  ℕ, zero, suc, ◌+◌, ◌≤◌, ◌≡◌, refl, ap, ◌∙◌, Bool, false, not, ◌&&◌, List, [], ◌∷◌, ℤ, pos, negsuc,
  ◌-ℤ◌, -ℤ_parts, eq_of_parts, ◌==◌, ==_iff, int_eq, put, get-put, if◌then◌else◌, leb_ℤ, ltb,
  length, arith, Bool-cases, inl, inr,
}
use phan_tan_dkron_giuaky.Server.Executions.{Stat, Stats, stat_at, increment_stat, day_of, bump}

-- 30 days if the number is not positive, and at most 365.
unfoldable pub days_shown : ℤ → ℕ
days_shown (pos zero) = 30
days_shown (pos (suc n)) = if ltb 365 (suc n) then 365 else suc n
days_shown (negsuc n) = 30

-- The loop, from `i` days ago
unfoldable pub stats_from : Stats → ℤ → ℕ → List (ℤ × Stat)
stats_from m today zero = []
stats_from m today (suc i) = (today -ℤ pos i, stat_at m (today -ℤ pos i)) ∷ stats_from m today i

unfoldable pub get_execution_stats : Stats → ℤ → ℤ → List (ℤ × Stat)
unfolding days_shown stats_from
get_execution_stats m today days = stats_from m today (days_shown days)

-- The successes, or the failures, of a day, and of all
abbrev pub count_of : Bool → Stat → ℕ
count_of success s = if success then s.success_count else s.failed_count

unfoldable pub total : Bool → List (ℤ × Stat) → ℕ
total success [] = 0
total success ((day, s) ∷ rest) = count_of success s + total success rest

-- Whether the day is one of the last `n`.
abbrev pub shows : ℤ → ℕ → ℤ → Bool
shows today n day = leb_ℤ day today && not (leb_ℤ day (today -ℤ pos n))

stat_at-put :
    (m : Stats) (d : ℤ) (v : Stat) (day : ℤ)
    → stat_at (put m d v) day ≡ (if d == day then v else stat_at m day)
unfolding stat_at
stat_at-put m d v day = ground (arith, get-put m d day v)

-- 1 where an execution with this outcome counts.
abbrev pub counts_as : Bool → Bool → ℕ
counts_as s success = if (if s then success else not success) then 1 else 0

count_of-bump :
    (s success : Bool) (v : Stat) → count_of s (bump success v) ≡ count_of s v + counts_as s success
unfolding bump
count_of-bump s success v = ground arith

count_of-increment_stat :
    (m : Stats) (date : ℤ) (success : Bool) (day : ℤ) (s : Bool)
    → count_of s (stat_at (increment_stat date success m) day)
      ≡ count_of s (stat_at m day) + (if day_of date == day then counts_as s success else 0)
unfolding increment_stat
count_of-increment_stat m date success day s =
    let d = day_of date in
    ap (count_of s) (stat_at-put m d (bump success (stat_at m d)) day)
    ∙ elim (Bool-cases (d == day)) [
      | inl same ↦ rw same (
          count_of-bump s success (stat_at m d)
          ∙ ap (λ i. count_of s (stat_at m i) + counts_as s success) ((==_iff d day).0 same))
      | inr other ↦ rw other (omega arith)
    ]

shows-zero : (today d : ℤ) → shows today 0 d ≡ false
shows-zero today d = ground (arith, -ℤ_parts today (pos 0))

shows-suc :
    (today d : ℤ) (i : ℕ) (x : ℕ)
    → (if shows today (suc i) d then x else 0)
      ≡ (if d == today -ℤ pos i then x else 0) + (if shows today i d then x else 0)
shows-suc today d i x = ground (
  arith,
  -ℤ_parts today (pos i),
  -ℤ_parts today (pos (suc i)),
  eq_of_parts d (today -ℤ pos i),
  ==_iff d (today -ℤ pos i),
)

total-stats_from :
    (m : Stats) (today date : ℤ) (success s : Bool) (n : ℕ)
    → total s (stats_from (increment_stat date success m) today n)
      ≡ total s (stats_from m today n)
        + (if shows today n (day_of date) then counts_as s success else 0)
unfolding total stats_from
total-stats_from m today date success s zero = rw (shows-zero today (day_of date)) refl
total-stats_from m today date success s (suc i) = omega (
  arith,
  total-stats_from m today date success s i,
  count_of-increment_stat m date success (today -ℤ pos i) s,
  shows-suc today (day_of date) i (counts_as s success),
)

length-stats_from : (m : Stats) (today : ℤ) (n : ℕ) → length (stats_from m today n) ≡ n
unfolding stats_from
length-stats_from m today zero = refl
length-stats_from m today (suc n) = ap suc (length-stats_from m today n)

days_range : (days : ℤ) → (1 ≤ days_shown days) × (days_shown days ≤ 365)
unfolding days_shown
days_range (pos zero) = ground arith
days_range (pos (suc n)) = ground arith
days_range (negsuc n) = ground arith

-- `GetExecutionStats` gives between 1 and 365 days, and an execution that is counted in the
-- numbers of its day makes the sum of its outcome over those days greater by one when its day is among
-- them: not after today, and less than that many days before. Every other sum stays.
pub total-get_execution_stats :
    (m : Stats) (today date days : ℤ) (success s : Bool)
    → (length (get_execution_stats m today days) ≡ days_shown days)
      × (1 ≤ days_shown days)
      × (days_shown days ≤ 365)
      × (total s (get_execution_stats (increment_stat date success m) today days)
          ≡ total s (get_execution_stats m today days)
            + (if shows today (days_shown days) (day_of date) then counts_as s success else 0))
unfolding get_execution_stats
total-get_execution_stats m today date days success s = (
  length-stats_from m today (days_shown days),
  (days_range days).0,
  (days_range days).1,
  total-stats_from m today date success s (days_shown days),
)
