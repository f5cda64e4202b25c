-- ===== src/Session.antt =====
-- `dkron/ui/src/authProvider.ts`, and `apiUrl` and `httpClient` of `dkron/ui/src/dataProvider.ts`:
-- the access token in the browser's storage, and the headers that it puts on each request.
pub mod Token
use Prim.Native.String.{◌++◌}
use phan_tan_dkron_giuaky.Common.{
  ℕ, ◌≡◌, Bool, true, false, ◌||◌, Option, some, none, List, [], ◌∷◌, String, get, put, eqb, ◌==◌,
  string_eq, if◌then◌else◌,
}
use phan_tan_dkron_giuaky.Diagram.Defs.{or_text, truthy}

-- `localStorage`
abbrev pub Storage : Type 0
Storage = List (String × String)

-- `removeItem`
unfoldable pub remove_item : Storage → String → Storage
remove_item [] key = []
remove_item ((k, v) ∷ st) key = if k == key then remove_item st key else (k, v) ∷ remove_item st key

-- How the promise of a provider's method ends.
pub data Settled : Type 0 where
  resolved rejected : Settled

-- `localStorage.getItem('token')`
abbrev pub token_of : Storage → Option String
token_of st = get st "token"

-- The truth of an optional text.
unfoldable pub given : Option String → Bool
given none = false
given (some s) = truthy s

unfoldable pub login : String → Storage → Storage × Settled
login token st = (put st "token" token, resolved)

unfoldable pub logout : Storage → Storage × Settled
logout st = (remove_item st "token", resolved)

unfoldable pub check_auth : Storage → Storage × Settled
check_auth st = (st, if given (token_of st) then resolved else rejected)

unfoldable pub check_error : ℕ → Storage → Storage × Settled
check_error status st =
    if eqb status 401 || eqb status 403 then (remove_item st "token", rejected) else (st, resolved)

pub record Identity : Type 0 where
  pub id : String
  pub full_name : String

abbrev pub get_identity : Identity
get_identity = record { id = "user"; full_name = "User" }

-- `window.DKRON_API_URL || 'http://localhost:8080/v1'`
unfoldable pub api_url : Option String → String
api_url configured = or_text configured "http://localhost:8080/v1"

-- The headers of a request, by their names in small letters.
abbrev pub Headers : Type 0
Headers = List (String × String)

-- `if (!options.headers) { options.headers = new Headers({ Accept: 'application/json' }); }`
unfoldable pub base_headers : Option Headers → Headers
base_headers none = ("accept", "application/json") ∷ []
base_headers (some headers) = headers

-- The headers with which `httpClient` makes the request.
unfoldable pub request_headers : Storage → Option Headers → Headers
request_headers st headers =
    let base = base_headers headers in
    elim (token_of st) [
      | none ↦ base
      | some token ↦ if truthy token then put base "authorization" ("Bearer " ++ token) else base
    ]

-- The calls that the application makes of the provider.
pub data Call : Type 0 where
  login_with : String → Call
  log_out : Call
  auth_checked : Call
  error_seen : ℕ → Call

unfoldable pub perform : Storage → Call → Storage × Settled
perform st (login_with token) = login token st
perform st log_out = logout st
perform st auth_checked = check_auth st
perform st (error_seen status) = check_error status st

-- The storage after a row of calls.
unfoldable pub run : Storage → List Call → Storage
run st [] = st
run st (c ∷ cs) = run (perform st c).0 cs
