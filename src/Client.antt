-- ===== src/Client.antt =====
-- `dkron/ui/src/dataProvider.ts`: `getManyReference`, which asks for one page of the executions of a
-- job. `fetchUtils.flattenObject` and `stringify` come from packages and are arguments here.
pub mod Number
pub mod Total
pub mod Pages
use Prim.Native.String.{◌++◌}
use phan_tan_dkron_giuaky.Common.{
  ℕ, ◌≡◌, Option, some, none, List, [], ◌∷◌, String, ℤ, pos, ◌-ℤ◌, ◌*ℤ◌, get, put, foldl, string_eq,
}
use phan_tan_dkron_giuaky.Client.Number.{parse_total}

-- A value in a query.
pub data QueryValue : Type 0 where
  text : String → QueryValue
  number : ℤ → QueryValue

abbrev pub Query : Type 0
Query = List (String × QueryValue)

pub record Params (Filter : Type 0) : Type 0 where
  pub page : ℕ
  pub per_page : ℕ
  pub field : String
  pub order : String
  pub target : String
  pub id : String
  pub filter : Filter

-- `(page - 1) * perPage` and `page * perPage`
unfoldable pub window : ℕ → ℕ → ℤ × ℤ
window page per_page = ((pos page -ℤ pos 1) *ℤ per_page, pos page *ℤ per_page)

-- The pairs behind the flattened filter, in the order of the literal.
unfoldable pub own_pairs : {Filter : Type 0} → Params Filter → Query
own_pairs p =
    (p.target, text p.id)
    ∷ ("_sort", text p.field)
    ∷ ("_order", text p.order)
    ∷ ("_start", number (window p.page p.per_page).0)
    ∷ ("_end", number (window p.page p.per_page).1)
    ∷ ("output_size_limit", number (pos 200))
    ∷ []

-- A pair of an object literal replaces an earlier one of the same key.
unfoldable pub put_all : Query → Query → Query
put_all q [] = q
put_all q ((k, v) ∷ pairs) = put_all (put q k v) pairs

unfoldable pub query_of : {Filter : Type 0} → (Filter → Query) → Params Filter → Query
unfolding put_all own_pairs
query_of flatten p = put_all (flatten p.filter) (own_pairs p)

module _ {Filter : Type 0} (flatten : Filter → Query) (stringify : Query → String) where
  unfoldable pub url_of : String → String → Params Filter → String
  url_of api resource p =
      api
      ++ "/"
      ++ p.target
      ++ "/"
      ++ p.id
      ++ "/"
      ++ resource
      ++ "?"
      ++ stringify (query_of flatten p)

-- The parts of a response that the provider reads: the count header as UTF-16 code units.
pub record Response (Body : Type 0) : Type 0 where
  pub total_count : Option (List ℕ)
  pub json : Body

-- The page of rows, or the error for the missing header. A total of `none` is `NaN`.
pub data Rows (Body : Type 0) : Type 0 where
  rows : Body → Option ℤ → Rows Body
  missing_total : Rows Body

unfoldable pub read_rows : {Body : Type 0} → Response Body → Rows Body
read_rows r = elim r.total_count [
  | none ↦ missing_total
  | some header ↦ rows r.json (parse_total header)
]
