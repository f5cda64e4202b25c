-- ===== src/Server/Pages.antt =====
-- `jobsHandler` of `dkron/dkron/api.go`: the page of the jobs that the query asks for. The text of the
-- query is a list of code points.
use phan_tan_dkron_giuaky.Common.{
  ℕ, zero, suc, ◌-◌, Bool, true, false, ◌&&◌, ◌||◌, Option, some, none, List, [], ◌∷◌, ℤ, pos,
  negsuc, if◌then◌else◌, leb_ℤ, ltb, leb, eqb, length, take,
}
use phan_tan_dkron_giuaky.Server.Number.{read_number}

-- Out of 64 bits, the nearest number that is not
unfoldable clamped : Bool → ℕ → ℤ
clamped false n = if ltb 9223372036854775807 n then pos 9223372036854775807 else pos n
clamped true zero = pos 0
clamped true (suc n) = if ltb 9223372036854775807 n then negsuc 9223372036854775807 else negsuc n

-- `strconv.Atoi`, whose error is ignored: 0 where there is no number
unfoldable pub atoi : List ℕ → ℤ
unfolding read_number clamped
atoi [] = pos 0
atoi (c ∷ s) =
    let negative = eqb c b'-' in
    let digits = if negative || eqb c b'+' then s else c ∷ s in
    elim (read_number digits) [ none ↦ pos 0 | some n ↦ clamped negative n ]

unfoldable pub drop {ℓ} : {A : Type ℓ} → ℕ → List A → List A
drop zero l = l
drop (suc n) [] = []
drop (suc n) (x ∷ l) = drop n l

-- `l[s:e]`, of a list with at least `e` elements: `none` where the language panics
unfoldable pub slice {ℓ} : {A : Type ℓ} → ℤ → ℤ → List A → Option (List A)
unfolding drop
slice (pos s) (pos e) l = if leb s e then some (take (e - s) (drop s l)) else none
slice (pos s) (negsuc e) l = none
slice (negsuc s) e l = none

-- `_start` and `_end` of the query, which may be missing
unfoldable pub start_of_page : Option (List ℕ) → ℤ
unfolding atoi
start_of_page none = pos 0
start_of_page (some text) = atoi text

unfoldable pub end_of_page : ℕ → Option (List ℕ) → ℤ
unfolding atoi
end_of_page n none = pos n
end_of_page n (some text) = if leb_ℤ (atoi text) (pos n) then atoi text else pos n

unfoldable pub jobs_page {ℓ} :
    {A : Type ℓ} → List A → Option (List ℕ) → Option (List ℕ) → Option (List A)
unfolding slice start_of_page end_of_page
jobs_page jobs start end = slice (start_of_page start) (end_of_page (length jobs) end) jobs

-- Whether the language lets the slice be taken.
unfoldable pub in_range : ℤ → ℤ → Bool
in_range s e = leb_ℤ (pos 0) s && leb_ℤ s e
