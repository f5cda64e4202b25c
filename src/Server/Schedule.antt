-- ===== src/Server/Schedule.antt =====
-- `dkron/dkron/job.go`: `nameHash` and `scheduleHash`, on code points. The hash of a name is a 64-bit
-- number that no name of less than 2 ^ 40 code points makes overflow.
use phan_tan_dkron_giuaky.Common.{
  ℕ, suc, ◌+◌, ◌%◌, ◌/◌, Bool, true, false, not, ◌&&◌, ◌||◌, List, [], ◌∷◌, ◌++◌, if◌then◌else◌,
  eqb, ltb, foldl, has, nat_eq,
}

-- `HashSymbol`, a space, and the three prefixes.
abbrev pub hash_symbol : ℕ
hash_symbol = b'~'

abbrev tz_prefix : List ℕ
tz_prefix = b'T' ∷ b'Z' ∷ b'=' ∷ []

abbrev cron_tz_prefix : List ℕ
cron_tz_prefix = b'C' ∷ b'R' ∷ b'O' ∷ b'N' ∷ b'_' ∷ b'T' ∷ b'Z' ∷ b'=' ∷ []

unfoldable pub name_hash : List ℕ → ℕ
name_hash name = foldl (λ hash c. hash + c) 0 name

-- `strings.HasPrefix`
unfoldable pub has_prefix : List ℕ → List ℕ → Bool
has_prefix [] s = true
has_prefix (p ∷ ps) [] = false
has_prefix (p ∷ ps) (c ∷ s) = eqb p c && has_prefix ps s

-- `strings.Split(spec, " ")`, and `strings.Join(parts, " ")`
unfoldable pub split : List ℕ → List (List ℕ)
split [] = [] ∷ []
split (c ∷ s) = elim (split s) [
  | [] ↦ (c ∷ []) ∷ []
  | part ∷ parts ↦ if eqb c b' ' then [] ∷ part ∷ parts else (c ∷ part) ∷ parts
]

unfoldable pub join_parts : List (List ℕ) → List ℕ
join_parts [] = []
join_parts (part ∷ []) = part
join_parts (part ∷ next ∷ parts) = part ++ b' ' ∷ join_parts (next ∷ parts)

-- `strconv.Itoa` for numbers below 100
unfoldable pub itoa : ℕ → List ℕ
itoa n = if ltb n 10 then (b'0' + n) ∷ [] else (b'0' + n / 10) ∷ (b'0' + n % 10) ∷ []

-- `strings.ReplaceAll(part, HashSymbol, digits)`
unfoldable pub replace_hash : List ℕ → List ℕ → List ℕ
replace_hash digits [] = []
replace_hash digits (c ∷ s) =
    if eqb c hash_symbol then digits ++ replace_hash digits s else c ∷ replace_hash digits s

-- The value for a part of the cron spec, by its index
unfoldable pub part_hash : ℕ → ℕ → ℕ
part_hash hash index =
    if eqb index 2
    then hash % 24
    else if eqb index 3
    then hash % 28 + 1
    else if eqb index 4
    then hash % 12 + 1
    else if eqb index 5
    then hash % 7
    else hash % 60

-- Whether the loop over the parts comes to one that names a predefined schedule.
unfoldable pub is_predefined : List (List ℕ) → Bool
is_predefined [] = false
is_predefined (part ∷ parts) = has_prefix (b'@' ∷ []) part || is_predefined parts

unfoldable pub is_time_zone : List ℕ → Bool
unfolding has_prefix
is_time_zone part = has_prefix tz_prefix part || has_prefix cron_tz_prefix part

unfoldable pub hash_part : ℕ → ℕ → List ℕ → List ℕ
unfolding replace_hash itoa part_hash
hash_part hash index part =
    if has part hash_symbol then replace_hash (itoa (part_hash hash index)) part else part

-- The rest of the loop, from the part with this index
unfoldable pub hash_parts : ℕ → ℕ → List (List ℕ) → List (List ℕ)
unfolding is_time_zone hash_part
hash_parts hash index [] = []
hash_parts hash index (part ∷ parts) = elim (is_time_zone part) [
  | true ↦ part ∷ hash_parts hash index parts
  | false ↦ hash_part hash index part ∷ hash_parts hash (suc index) parts
]

unfoldable pub schedule_hash : List ℕ → List ℕ → List ℕ
unfolding is_predefined hash_parts name_hash split join_parts
schedule_hash name spec =
    if not (has spec hash_symbol) || is_predefined (split spec)
    then spec
    else join_parts (hash_parts (name_hash name) 0 (split spec))
