-- ===== src/Jobs/Fields/Laws.antt =====
-- What the fields show of a status, and what `ZeroDateField` does to its record.
use phan_tan_dkron_giuaky.Common.{
  ◌≡◌, refl, ap, inl, inr, Option, some, none, String, if◌then◌else◌, ◌==◌, ==_iff, string_eq, get,
  put, get-put, Bool-cases, arith,
}
use phan_tan_dkron_giuaky.Diagram.Defs.{or_text}
use phan_tan_dkron_giuaky.Jobs.Fields.{Fields, clear_zero_date, zero_date}

-- A value without the zero date.
pub cleared : Option (Option String) → Option (Option String)
cleared none = none
cleared (some value) = some (if or_text value "" == zero_date then none else value)

-- What `clear_zero_date` makes of the entries.
abbrev clear : Fields → String → Option (Option String) → Fields
clear fields source none = fields
clear fields source (some value) =
    if or_text value "" == zero_date then put fields source none else fields

get-clear :
    (fields : Fields) (source k : String) (o : Option (Option String))
    → get fields source ≡ o
    → get (clear fields source o) k ≡ (if source == k then cleared (get fields k) else get fields k)
unfolding cleared
get-clear fields source k none h = elim (Bool-cases (source == k)) [
  | inl same ↦ ground (arith, h, ==_iff source k, same)
  | inr other ↦ ground (arith, other)
]
get-clear fields source k (some value) h = elim (Bool-cases (source == k)) [
  | inl same ↦ ground (arith, h, get-put fields source k none, ==_iff source k, same)
  | inr other ↦ ground (arith, get-put fields source k none, other)
]

clear-again :
    (fields : Fields) (source : String) (o : Option (Option String))
    → get fields source ≡ o
    → clear (clear fields source o) source (get (clear fields source o) source)
      ≡ clear fields source o
unfolding or_text
clear-again fields source none h = rw h refl
clear-again fields source (some value) h = elim (Bool-cases (or_text value "" == zero_date)) [
  | inl zero ↦ ground (arith, zero, get-put fields source source none, ==_iff source source)
  | inr other ↦ ground (arith, other, h)
]

-- The field that `ZeroDateField` shows is null afterwards if it held the zero date, and otherwise it
-- and every other field of the record are as they were; a second call changes nothing more.
get-clear_zero_date :
    (fields : Fields) (source k : String)
    → (m : Fields) × (clear_zero_date (some fields) (some source) ≡ some m)
      × (get m k ≡ (if source == k then cleared (get fields k) else get fields k))
      × (clear_zero_date (some m) (some source) ≡ some m)
unfolding clear_zero_date
get-clear_zero_date fields source k = (
  clear fields source (get fields source),
  refl,
  get-clear fields source k (get fields source) refl,
  ap some (clear-again fields source (get fields source) refl),
)
