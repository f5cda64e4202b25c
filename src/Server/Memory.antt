-- ===== src/Server/Memory.antt =====
-- `validateMemoryLimit` of `dkron/dkron/job.go`, on code points.
use phan_tan_dkron_giuaky.Common.{
  ℕ, zero, suc, ◌-◌, Bool, true, false, not, ◌&&◌, ◌||◌, Option, some, none, List, [], ◌∷◌, ℤ, pos,
  negsuc, ◌==◌, codes_eq, if◌then◌else◌, ltb, leb, leb_ℤ, eqb, codes_of,
}
use phan_tan_dkron_giuaky.Client.Number.{is_digit}
use phan_tan_dkron_giuaky.Server.Number.{read_number}
use phan_tan_dkron_giuaky.Server.Cron.{Checks, is_space}

-- `strconv.ParseInt(limit, 10, 64)`, `none` where it fails
unfoldable to_int : Bool → ℕ → Option ℤ
to_int false n = if ltb 9223372036854775807 n then none else some (pos n)
to_int true zero = some (pos 0)
to_int true (suc n) = if ltb 9223372036854775807 n then none else some (negsuc n)

unfoldable parse_int_64 : List ℕ → Option ℤ
unfolding read_number to_int
parse_int_64 [] = none
parse_int_64 (c ∷ s) =
    let negative = eqb c b'-' in
    let digits = if negative || eqb c b'+' then s else c ∷ s in
    elim (read_number digits) [ none ↦ none | some n ↦ to_int negative n ]

-- `strings.TrimSpace`
unfoldable trim_left : List ℕ → List ℕ
unfolding is_space
trim_left [] = []
trim_left (c ∷ s) = let rest = trim_left s in if is_space c then rest else c ∷ s

unfoldable trim_right : List ℕ → List ℕ
unfolding is_space
trim_right [] = []
trim_right (c ∷ s) = let rest = trim_right s in if is_space c && rest == [] then [] else c ∷ rest

-- `strings.ToUpper`, for the letters that become one of A to Z: the long s and the dotless i too
unfoldable upper : List ℕ → List ℕ
upper [] = []
upper (c ∷ s) =
    (if leb b'a' c && leb c b'z'
      then c - 32
      else if eqb c 0x17f
      then b'S'
      else if eqb c 0x131
      then b'I'
      else c)
    ∷ upper s

-- The digits and dots at the front, and the unit that follows
unfoldable span_number : List ℕ → List ℕ × List ℕ
unfolding is_digit
span_number [] = ([], [])
span_number (c ∷ s) =
    let r = span_number s in if is_digit c || eqb c b'.' then (c ∷ r.0, r.1) else ([], c ∷ s)

unfoldable multiplier : List ℕ → Option ℕ
multiplier unit =
    if unit == [] || unit == codes_of "B" || unit == codes_of "BYTES"
    then some 1
    else if unit == codes_of "KB" || unit == codes_of "K"
    then some 1024
    else if unit == codes_of "MB" || unit == codes_of "M"
    then some 1048576
    else if unit == codes_of "GB" || unit == codes_of "G"
    then some 1073741824
    else if unit == codes_of "TB" || unit == codes_of "T"
    then some 1099511627776
    else none

-- Whether `validateMemoryLimit` gives no error. A number that is not positive has no positive product.
unfoldable pub memory_limit_valid : Checks → List ℕ → Bool
unfolding parse_int_64 trim_left trim_right upper span_number multiplier
memory_limit_valid k limit = elim (parse_int_64 limit) [
  | some n ↦ not (leb_ℤ n (pos 0))
  | none ↦
      let r = span_number (upper (trim_right (trim_left limit))) in
      limit == []
      || (not (r.0 == []) && elim (multiplier r.1) [
        | none ↦ false
        | some m ↦ elim (k.scaled r.0 m) [ none ↦ false | some bytes ↦ not (leb_ℤ bytes (pos 0)) ]
      ])
]
