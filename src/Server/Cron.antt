-- ===== src/Server/Cron.antt =====
-- `dkron/extcron/`: the parser of schedules, with the forms that it adds to those of the cron package,
-- and their next times; and what packages and the language's tables and floating-point numbers decide.
-- Texts are lists of code points.
use phan_tan_dkron_giuaky.Common.{
  ℕ, ◌+◌, ◌*◌, ◌-◌, ◌%◌, Bool, true, false, not, ◌&&◌, ◌||◌, Option, some, none, List, [], ◌∷◌,
  ◌++◌, String, ℤ, pos, negsuc, ◌+ℤ◌, ◌==◌, codes_eq, int_eq, if◌then◌else◌, ltb, leb, leb_ℤ, eqb,
  codes_of, ◌>>=◌,
}
use phan_tan_dkron_giuaky.Client.Number.{is_digit}
use phan_tan_dkron_giuaky.Server.Schedule.{has_prefix}

pub record Checks : Type 0 where
  -- Lower case letters, `\p{Ll}`
  pub is_lower : ℕ → Bool
  -- Whether the cron package takes a schedule, and `Next` of what it parsed
  pub cron_parses : List ℕ → Bool
  pub cron_next : List ℕ → ℤ → ℤ
  -- `time.Parse(time.RFC3339, …)`, `time.LoadLocation` and `time.ParseDuration`
  pub time_of : List ℕ → Option ℤ
  pub location_exists : String → Bool
  pub duration_parses : String → Bool
  -- Nanoseconds of a decimal number of seconds, in floating point
  pub nanoseconds_of : List ℕ → ℤ
  -- A decimal number times a whole one, in floating point, as a 64-bit number: `none` where
  -- `strconv.ParseFloat` fails
  pub scaled : List ℕ → ℕ → Option ℤ

-- `unicode.IsSpace`
unfoldable pub is_space : ℕ → Bool
is_space c =
    (leb 9 c && leb c 13)
    || eqb c 32
    || eqb c 0x85
    || eqb c 0xa0
    || eqb c 0x1680
    || (leb 0x2000 c && leb c 0x200a)
    || eqb c 0x2028
    || eqb c 0x2029
    || eqb c 0x202f
    || eqb c 0x205f
    || eqb c 0x3000

-- `strings.Fields`: `word` is the word that is being read.
unfoldable fields : List ℕ → List ℕ → List (List ℕ)
unfolding is_space
fields word [] = if word == [] then [] else word ∷ []
fields word (c ∷ s) = elim (is_space c) [
  | true ↦ if word == [] then fields [] s else word ∷ fields [] s
  | false ↦ fields (word ++ c ∷ []) s
]

-- The digits at the front, and the rest
unfoldable pub span_digits : List ℕ → List ℕ × List ℕ
unfolding is_digit
span_digits [] = ([], [])
span_digits (c ∷ s) = let r = span_digits s in if is_digit c then (c ∷ r.0, r.1) else ([], c ∷ s)

-- `(?:(\d+)X)?` for the letter X: the digits, none where there is no such part, and the rest
unfoldable part_of : ℕ → List ℕ → List ℕ × List ℕ
unfolding span_digits
part_of letter s = elim (span_digits s).0 [
  | [] ↦ ([], s)
  | d ∷ ds ↦ elim (span_digits s).1 [
    | [] ↦ ([], s)
    | c ∷ rest ↦ if eqb c letter then (d ∷ ds, rest) else ([], s)
  ]
]

-- `(?:(\d+(?:\.\d+)?)S)?`
unfoldable seconds_part : List ℕ → List ℕ × List ℕ
unfolding part_of
seconds_part s = elim (span_digits s).0 [
  | [] ↦ ([], s)
  | d ∷ ds ↦ elim (span_digits s).1 [
    | [] ↦ ([], s)
    | c ∷ rest ↦
        if eqb c b'S'
        then (d ∷ ds, rest)
        else if not (eqb c b'.')
        then ([], s)
        else let fraction = part_of b'S' rest in
          if fraction.0 == [] then ([], s) else (d ∷ ds ++ b'.' ∷ fraction.0, fraction.1)
  ]
]

-- The groups of `iso8601DurationRegex`: years, months, days, hours, minutes and seconds
pub record Parts : Type 0 where
  pub years : List ℕ
  pub months : List ℕ
  pub days : List ℕ
  pub hours : List ℕ
  pub minutes : List ℕ
  pub seconds : List ℕ

unfoldable time_parts : Parts → List ℕ → Option Parts
unfolding part_of seconds_part
time_parts p [] = some p
time_parts p (c ∷ s) =
    let h = part_of b'H' s in
    let m = part_of b'M' h.1 in
    let t = seconds_part m.1 in
    if eqb c b'T' && t.1 == []
    then some (record p { hours = h.0; minutes = m.0; seconds = t.0 })
    else none

unfoldable match_duration : List ℕ → Option Parts
unfolding part_of time_parts
match_duration [] = none
match_duration (c ∷ s) =
    let y = part_of b'Y' s in
    let m = part_of b'M' y.1 in
    let d = part_of b'D' m.1 in
    if eqb c b'P'
    then time_parts
        (record { years = y.0; months = m.0; days = d.0; hours = []; minutes = []; seconds = [] })
        d.1
    else none

-- `strconv.Atoi` of digits, `none` beyond 64 bits; 0 for a missing part
unfoldable digits_value : ℕ → List ℕ → ℕ
digits_value n [] = n
digits_value n (c ∷ s) = digits_value (n * 10 + (c - b'0')) s

unfoldable number_of : List ℕ → Option ℕ
unfolding digits_value
number_of s = let n = digits_value 0 s in if ltb 9223372036854775807 n then none else some n

-- The language's wrap to a signed number of 64 bits
unfoldable signed_64 : ℕ → ℤ
signed_64 r = if ltb r 9223372036854775808 then pos r else negsuc (18446744073709551615 - r)

unfoldable int_64 : ℤ → ℤ
unfolding signed_64
int_64 (pos n) = signed_64 (n % 18446744073709551616)
int_64 (negsuc n) = signed_64 (18446744073709551615 - n % 18446744073709551616)

abbrev hour : ℕ
hour = 3600000000000

-- `ParseISO8601Duration`
unfoldable pub parse_duration : Checks → List ℕ → Option ℤ
unfolding match_duration number_of int_64
parse_duration k s = do
  p ← match_duration s
  years ← number_of p.years
  months ← number_of p.months
  days ← number_of p.days
  hours ← number_of p.hours
  minutes ← number_of p.minutes
  let whole =
      years * (365 * 24 * hour)
      + months * (30 * 24 * hour)
      + days * (24 * hour)
      + hours * hour
      + minutes * 60000000000
  let seconds = if p.seconds == [] then pos 0 else k.nanoseconds_of p.seconds
  let duration = int_64 (pos whole +ℤ seconds)
  if duration == pos 0 then none else some duration

-- What `Parse` returns: the times of `At` and `After`, or a schedule of the cron package.
pub data Schedule : Type 0 where
  at_date : ℤ → Schedule
  after_date : ℤ → ℤ → Schedule
  cron : List ℕ → Schedule

-- The language's zero time, the start of the year 1
abbrev pub zero_time : ℤ
zero_time = negsuc 62135596799999999999

unfoldable pub drop_codes : List ℕ → List ℕ → List ℕ
drop_codes [] s = s
drop_codes (p ∷ ps) [] = []
drop_codes (p ∷ ps) (c ∷ s) = drop_codes ps s

unfoldable parse_after : Checks → List (List ℕ) → Option Schedule
unfolding parse_duration
parse_after k [] = none
parse_after k (date ∷ []) = none
parse_after k (date ∷ [] ∷ rest) = none
parse_after k (date ∷ (c ∷ grace) ∷ []) = do
  t ← k.time_of date
  duration ← if eqb c b'<' then parse_duration k grace else none
  some (after_date t duration)
parse_after k (date ∷ (c ∷ grace) ∷ word ∷ rest) = none

-- `Parse`
unfoldable pub parse : Checks → List ℕ → Option Schedule
unfolding fields parse_after drop_codes has_prefix
parse k spec =
    if spec == codes_of "@manually"
    then some (at_date zero_time)
    else if has_prefix (codes_of "@at ") spec
    then (k.time_of (drop_codes (codes_of "@at ") spec) >>= λ t. some (at_date t))
    else if has_prefix (codes_of "@after ") spec
    then parse_after k (fields [] (drop_codes (codes_of "@after ") spec))
    else let own = if spec == codes_of "@minutely" then codes_of "0 * * * * *" else spec in
      if k.cron_parses own then some (cron own) else none

-- `Next`, of a schedule that was just parsed
unfoldable pub next_of : Checks → Schedule → ℤ → ℤ
next_of k (at_date date) t = if leb_ℤ date t then zero_time else date
next_of k (after_date date grace) t =
    if not (leb_ℤ date t) then date else if leb_ℤ t (date +ℤ grace) then t +ℤ pos 1 else zero_time
next_of k (cron spec) t = k.cron_next spec t
