-- ===== src/Client/Total.antt =====
-- The total that the provider reads out of the count header.
use native.Mathlib.Nat.{pow-suc}
use Prim.Native.Nat.{◌^◌}
use phan_tan_dkron_giuaky.Common.{
  ℕ, ◌+◌, ◌*◌, ◌<◌, ◌≡◌, refl, ◌∙◌, ap, Bool, true, false, some, List, [], ◌∷◌, ◌++◌, pos, eqb,
  length, All, inl, inr, Bool-cases, arith,
}
use phan_tan_dkron_giuaky.Client.Number.{
  after_slash, skip_space, is_digit, scan_digits, signed, parse_int_from, parse_int, parse_total,
}

-- The number that decimal digits, the first the highest, stand for.
pub value : List ℕ → ℕ
value [] = 0
value (d ∷ ds) = d * 10 ^ length ds + value ds

abbrev pub Digits : List ℕ → Type 0
Digits = All (λ d. d < 10)

abbrev pub ascii : List ℕ → List ℕ
ascii [] = []
ascii (d ∷ ds) = (b'0' + d) ∷ ascii ds

scan_step : (n d p v : ℕ) → (n * 10 + d) * p + v ≡ n * (p * 10) + (d * p + v)
scan_step n d p v = grind arith

is_digit-ascii : (d : ℕ) → d < 10 → is_digit (b'0' + d) ≡ true
unfolding is_digit
is_digit-ascii d h = ground arith

scan_digits-cons :
    (d : ℕ) (s : List ℕ) (n : ℕ) (seen : Bool)
    → d < 10
    → scan_digits ((b'0' + d) ∷ s) n seen ≡ scan_digits s (n * 10 + d) true
unfolding scan_digits
scan_digits-cons d s n seen h =
    rw (is_digit-ascii d h) (ap (λ e. scan_digits s (n * 10 + e) true) (omega arith))

scan_digits-ascii :
    (ds : List ℕ) (n : ℕ)
    → Digits ds
    → scan_digits (ascii ds) n true ≡ some (n * 10 ^ length ds + value ds)
unfolding value
scan_digits-ascii [] n h = unfold scan_digits in ap some (omega arith)
scan_digits-ascii (d ∷ ds) n h =
    scan_digits-cons d (ascii ds) n true h.0
    ∙ scan_digits-ascii ds (n * 10 + d) h.1
    ∙ ap some (scan_step n d (10 ^ length ds) (value ds) ∙ rw (pow-suc 10 (length ds)))

-- What stands behind the last slash, if no slash follows.
after_slash_plain : (s part : List ℕ) → All (λ c. eqb c b'/' ≡ false) s → after_slash part s ≡ part
unfolding after_slash
after_slash_plain [] part h = refl
after_slash_plain (c ∷ s) part h = rw (h.0, after_slash) (after_slash_plain s part h.1)

after_slash-append :
    (prefix s part : List ℕ)
    → All (λ c. eqb c b'/' ≡ false) s
    → after_slash part (prefix ++ b'/' ∷ s) ≡ s
unfolding after_slash
after_slash-append [] s part h = after_slash_plain s s h
after_slash-append (c ∷ prefix) s part h = elim (Bool-cases (eqb c b'/')) [
  | inl slash ↦ rw (slash, after_slash) (after_slash-append prefix s (prefix ++ b'/' ∷ s) h)
  | inr other ↦ rw (other, after_slash) (after_slash-append prefix s part h)
]

no_slash : (ds : List ℕ) → Digits ds → All (λ c. eqb c b'/' ≡ false) (ascii ds)
no_slash [] h = tt
no_slash (d ∷ ds) h = (ground arith, no_slash ds h.1)

parse_int-ascii :
    (d : ℕ) (ds : List ℕ)
    → Digits (d ∷ ds)
    → parse_int (ascii (d ∷ ds)) ≡ some (pos (value (d ∷ ds)))
unfolding parse_int skip_space parse_int_from signed value
parse_int-ascii d ds h =
    ground (arith, scan_digits-cons d (ascii ds) 0 false h.0, scan_digits-ascii ds d h.1)

-- Where the count header is a range and a slash, of whatever text, followed by one or more decimal
-- digits, or the digits alone, the total is the number that these digits stand for.
pub parse_total-ascii :
    (range : List ℕ) (d : ℕ) (ds : List ℕ)
    → Digits (d ∷ ds)
    → (parse_total (range ++ b'/' ∷ ascii (d ∷ ds)) ≡ some (pos (value (d ∷ ds))))
      × (parse_total (ascii (d ∷ ds)) ≡ some (pos (value (d ∷ ds))))
unfolding parse_total
parse_total-ascii range d ds h = (
  ap parse_int (
        after_slash-append range (ascii (d ∷ ds)) (range ++ b'/' ∷ ascii (d ∷ ds))
          (no_slash (d ∷ ds) h))
      ∙ parse_int-ascii d ds h,
  ap parse_int (after_slash_plain (ascii (d ∷ ds)) (ascii (d ∷ ds)) (no_slash (d ∷ ds) h))
      ∙ parse_int-ascii d ds h,
)
