-- ===== src/Server/Number.antt =====
-- The numbers without a sign that `strconv` reads in `dkron/dkron/job.go` and `dkron/dkron/api.go`, on
-- code points.
use phan_tan_dkron_giuaky.Common.{
  ℕ, ◌+◌, ◌*◌, ◌-◌, true, false, Option, some, none, List, [], ◌∷◌, ltb,
}
use phan_tan_dkron_giuaky.Client.Number.{is_digit}

-- The digits of a number, on top of what was read: `none` at anything else. What passes 64 bits is the
-- largest number of 64 bits, whatever follows.
unfoldable read_digits : ℕ → List ℕ → Option ℕ
unfolding is_digit
read_digits n [] = some n
read_digits n (c ∷ s) =
    let m = n * 10 + (c - b'0') in
    elim (is_digit c) [
      | true ↦ elim (ltb 18446744073709551615 m) [
        | true ↦ some 18446744073709551615
        | false ↦ read_digits m s
      ]
      | false ↦ none
    ]

unfoldable pub read_number : List ℕ → Option ℕ
unfolding read_digits
read_number [] = none
read_number (c ∷ s) = read_digits 0 (c ∷ s)
