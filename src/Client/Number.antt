-- ===== src/Client/Number.antt =====
-- `dkron/ui/src/dataProvider.ts`, lines 47 to 50: `parseInt(header.split('/').pop() || '', 10)`, on
-- UTF-16 code units. `none` is `NaN`. The result is exact below 2 ^ 53, where the language's numbers
-- are.
use phan_tan_dkron_giuaky.Common.{
  ℕ, ◌+◌, ◌-◌, ◌*◌, Bool, true, false, ◌&&◌, ◌||◌, Option, some, none, List, [], ◌∷◌, ℤ, pos, ◌-ℤ◌,
  leb, eqb, if◌then◌else◌,
}

-- `s.split(/).pop()`: what stands behind the last slash, or all of `s`.
unfoldable pub after_slash : List ℕ → List ℕ → List ℕ
after_slash part [] = part
after_slash part (c ∷ s) = elim (eqb c b'/') [ true ↦ after_slash s s | false ↦ after_slash part s ]

abbrev pub last_part : List ℕ → List ℕ
last_part s = after_slash s s

-- The white space and line ends that `parseInt` skips.
unfoldable pub is_space : ℕ → Bool
is_space c =
    (leb 9 c && leb c 13)
    || eqb c 32
    || eqb c 0xa0
    || eqb c 0x1680
    || (leb 0x2000 c && leb c 0x200a)
    || eqb c 0x2028
    || eqb c 0x2029
    || eqb c 0x202f
    || eqb c 0x205f
    || eqb c 0x3000
    || eqb c 0xfeff

unfoldable pub skip_space : List ℕ → List ℕ
unfolding is_space
skip_space [] = []
skip_space (c ∷ s) = let rest = skip_space s in if is_space c then rest else c ∷ s

unfoldable pub is_digit : ℕ → Bool
is_digit c = leb b'0' c && leb c b'9'

-- The digits at the front; `seen` tells whether there was one.
unfoldable pub scan_digits : List ℕ → ℕ → Bool → Option ℕ
unfolding is_digit
scan_digits [] n seen = if seen then some n else none
scan_digits (c ∷ s) n seen =
    let rest = scan_digits s (n * 10 + (c - b'0')) true in
    if is_digit c then rest else if seen then some n else none

unfoldable pub signed : Bool → Option ℕ → Option ℤ
signed minus none = none
signed minus (some n) = some (if minus then pos 0 -ℤ pos n else pos n)

-- `parseInt(s, 10)`
unfoldable pub parse_int_from : List ℕ → Option ℤ
unfolding scan_digits signed
parse_int_from [] = none
parse_int_from (c ∷ s) =
    if eqb c b'-'
    then signed true (scan_digits s 0 false)
    else if eqb c b'+'
    then signed false (scan_digits s 0 false)
    else signed false (scan_digits (c ∷ s) 0 false)

unfoldable pub parse_int : List ℕ → Option ℤ
unfolding parse_int_from skip_space
parse_int s = parse_int_from (skip_space s)

unfoldable pub parse_total : List ℕ → Option ℤ
unfolding after_slash parse_int
parse_total header = parse_int (last_part header)
