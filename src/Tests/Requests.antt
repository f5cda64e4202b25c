-- ===== src/Tests/Requests.antt =====
-- The session and the queries.
use phan_tan_dkron_giuaky.Common.{
  ◌+◌, ◌/◌, ◌≡◌, ◌↔◌, some, none, List, [], ◌∷◌, ◌++◌, pos, ◌≤ℤ◌, ◌<ℤ◌, get, string_eq,
  if◌then◌else◌, arith,
}
use phan_tan_dkron_giuaky.Session.{
  Storage, resolved, rejected, token_of, given, check_auth, base_headers, request_headers, Call,
  login_with, error_seen, auth_checked, run,
}
use phan_tan_dkron_giuaky.Session.Token.{session, authorization, token_of-run, request_headers-run}
use phan_tan_dkron_giuaky.Client.{Params, Query, text, window, query_of}
use phan_tan_dkron_giuaky.Client.Number.{parse_total}
use phan_tan_dkron_giuaky.Client.Total.{value, ascii, parse_total-ascii}
use phan_tan_dkron_giuaky.Client.Pages.{window_iff, own_value, or_else, get-query_of}

abbrev stored : Storage
stored = ("theme", "dark") ∷ ("token", "old") ∷ []

abbrev calls : List Call
calls = login_with "secret" ∷ error_seen 500 ∷ auth_checked ∷ []

token_of-run_example : token_of (run stored calls) ≡ session (token_of stored) calls
token_of-run_example = token_of-run stored calls

request_headers-run_example :
    (get (request_headers (run stored calls) none) "authorization"
      ≡ authorization (session (token_of stored) calls) (base_headers none))
    × ((check_auth (run stored calls)).1
        ≡ (if given (session (token_of stored) calls) then resolved else rejected))
request_headers-run_example = request_headers-run stored calls none "authorization"

window_iff_example : (((window 3 10).0 ≤ℤ pos 25) × (pos 25 <ℤ (window 3 10).1)) ↔ (3 ≡ 25 / 10 + 1)
window_iff_example = window_iff 3 10 25 (omega arith) (omega arith)

parse_total-ascii_example :
    (parse_total ((b'0' ∷ b'-' ∷ b'9' ∷ []) ++ b'/' ∷ ascii (4 ∷ 2 ∷ []))
      ≡ some (pos (value (4 ∷ 2 ∷ []))))
    × (parse_total (ascii (4 ∷ 2 ∷ [])) ≡ some (pos (value (4 ∷ 2 ∷ []))))
parse_total-ascii_example = parse_total-ascii (b'0' ∷ b'-' ∷ b'9' ∷ []) 4 (2 ∷ []) (omega arith)

abbrev params : Params Query
params = record {
  page = 2;
  per_page = 25;
  field = "started_at";
  order = "DESC";
  target = "jobs";
  id = "load";
  filter = ("_start", text "0") ∷ ("q", text "x") ∷ [];
}

get-query_of_example :
    get (query_of (λ f. f) params) "_start"
    ≡ or_else (own_value params "_start") (get params.filter "_start")
get-query_of_example = get-query_of (λ f. f) params "_start"
