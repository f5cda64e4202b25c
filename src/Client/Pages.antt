-- ===== src/Client/Pages.antt =====
-- The pages that the provider asks for, and what the query says whatever the filter holds.
use phan_tan_dkron_giuaky.Common.{
  ℕ, zero, suc, ◌+◌, ◌*◌, ◌/◌, ◌≤◌, ◌<◌, ◌≡◌, refl, ◌∙◌, ◌↔◌, Option, some, none, [], ◌∷◌, String,
  pos, ◌-ℤ◌, ◌*ℤ◌, ◌≤ℤ◌, ◌<ℤ◌, get, get-put, put, ◌==◌, string_eq, if◌then◌else◌, arith,
}
use phan_tan_dkron_giuaky.Client.{
  Params, Query, QueryValue, text, number, window, own_pairs, put_all, query_of,
}

window-pos :
    (page per_page : ℕ)
    → window (suc page) per_page ≡ (pos (page * per_page), pos (suc page * per_page))
unfolding window ◌-ℤ◌ ◌*ℤ◌
window-pos page per_page = ground arith

div_iff : (q n k : ℕ) → 0 < n → ((q * n ≤ k) × (k < suc q * n)) ↔ (q ≡ k / n)
div_iff q n k h = (λ b. grind arith, λ e. grind arith)

-- With rows on a page, row `k` of the whole list, counted from 0, is asked for on page `page`,
-- counted from 1, exactly when `page` is `k` divided by the rows of a page, plus 1. So the pages cover
-- all rows and do not overlap.
pub window_iff :
    (page per_page k : ℕ)
    → 1 ≤ page
    → 0 < per_page
    → (((window page per_page).0 ≤ℤ pos k) × (pos k <ℤ (window page per_page).1))
      ↔ (page ≡ k / per_page + 1)
window_iff zero per_page k h rows = absurd (omega arith)
window_iff (suc q) per_page k h rows = rw (window-pos q per_page) (
  (λ b. omega (arith, (div_iff q per_page k rows).0 (omega arith, omega arith))),
  (λ e. let r = (div_iff q per_page k rows).1 (omega arith) in (omega arith, omega arith)),
)

-- The last value of `k` among the pairs.
last_of : Query → String → Option QueryValue
last_of [] k = none
last_of ((j, v) ∷ pairs) k = elim (last_of pairs k) [
  | some w ↦ some w
  | none ↦ if j == k then some v else none
]

abbrev pub or_else : Option QueryValue → Option QueryValue → Option QueryValue
or_else none b = b
or_else (some a) b = some a

get-put_all :
    (q pairs : Query) (k : String) → get (put_all q pairs) k ≡ or_else (last_of pairs k) (get q k)
unfolding put_all last_of
get-put_all q [] k = refl
get-put_all q ((j, v) ∷ pairs) k = get-put_all (put q j v) pairs k ∙ ground (arith, get-put q j k v)

-- What the provider itself puts under a key: the page, the order and the size limit, and under the
-- name of the target, if that is none of these keys, the job's id.
pub own_value : {Filter : Type 0} → Params Filter → String → Option QueryValue
own_value p k =
    if "output_size_limit" == k
    then some (number (pos 200))
    else if "_end" == k
    then some (number (window p.page p.per_page).1)
    else if "_start" == k
    then some (number (window p.page p.per_page).0)
    else if "_order" == k
    then some (text p.order)
    else if "_sort" == k
    then some (text p.field)
    else if p.target == k
    then some (text p.id)
    else none

last_of_own :
    {Filter : Type 0} (p : Params Filter) (k : String) → last_of (own_pairs p) k ≡ own_value p k
unfolding last_of own_pairs own_value
last_of_own p k = ground arith

-- Whatever the filter holds, and whatever the package's flattening makes of it, the query has the
-- provider's own value under each of the provider's own keys, and under any other key what the
-- flattened filter has there.
pub get-query_of :
    {Filter : Type 0} (flatten : Filter → Query) (p : Params Filter) (k : String)
    → get (query_of flatten p) k ≡ or_else (own_value p k) (get (flatten p.filter) k)
unfolding query_of
get-query_of flatten p k =
    get-put_all (flatten p.filter) (own_pairs p) k ∙ rw (last_of_own p k) refl
