-- ===== src/Session/Token.antt =====
-- The session as its users see it: the token of the last login that no logout and no refusal ended.
use Prim.Native.String.{◌++◌}
use phan_tan_dkron_giuaky.Common.{
  ℕ, ◌≡◌, refl, ◌∙◌, ap, Bool, false, ◌||◌, Option, some, none, List, [], ◌∷◌, String, get, get-put,
  eqb, ◌==◌, ==_iff, string_eq, if◌then◌else◌, inl, inr, Option-cases, arith,
}
use phan_tan_dkron_giuaky.Diagram.Defs.{truthy}
use phan_tan_dkron_giuaky.Session.{
  Storage, remove_item, resolved, rejected, token_of, given, login, logout, check_auth, check_error,
  Headers, base_headers, request_headers, Call, login_with, log_out, auth_checked, error_seen,
  perform, run,
}

get-remove_item :
    (st : Storage) (key k : String)
    → get (remove_item st key) k ≡ (if key == k then none else get st k)
unfolding get remove_item
get-remove_item [] key k = ground arith
get-remove_item ((j, v) ∷ st) key k =
    ground (arith, ==_iff j key, ==_iff j k, ==_iff key k, get-remove_item st key k)

-- A refusal by the server.
abbrev is_refusal : ℕ → Bool
is_refusal status = eqb status 401 || eqb status 403

-- The specification: the token in force after one call.
pub token_after : Option String → Call → Option String
token_after t (login_with token) = some token
token_after t log_out = none
token_after t auth_checked = t
token_after t (error_seen status) = if is_refusal status then none else t

-- And after a row of calls.
pub session : Option String → List Call → Option String
session t [] = t
session t (c ∷ cs) = session (token_after t c) cs

token_of-perform :
    (st : Storage) (c : Call) → token_of (perform st c).0 ≡ token_after (token_of st) c
unfolding perform login logout check_auth check_error token_after
token_of-perform st (login_with token) =
    ground (arith, get-put st "token" "token" token, ==_iff {K = String} "token" "token")
token_of-perform st log_out =
    ground (arith, get-remove_item st "token" "token", ==_iff {K = String} "token" "token")
token_of-perform st auth_checked = refl
token_of-perform st (error_seen status) =
    ground (arith, get-remove_item st "token" "token", ==_iff {K = String} "token" "token")

-- The stored token after any row of calls is the one that the specification tells: that of the last
-- login, unless a logout or an answer 401 or 403 came after it.
pub token_of-run : (st : Storage) (cs : List Call) → token_of (run st cs) ≡ session (token_of st) cs
unfolding run session
token_of-run st [] = refl
token_of-run st (c ∷ cs) =
    token_of-run (perform st c).0 cs ∙ ap (λ t. session t cs) (token_of-perform st c)

other_key-perform :
    (st : Storage) (c : Call) (k : String)
    → ("token" == k) ≡ false
    → get (perform st c).0 k ≡ get st k
unfolding perform login logout check_auth check_error
other_key-perform st (login_with token) k h = ground (arith, get-put st "token" k token)
other_key-perform st log_out k h = ground (arith, get-remove_item st "token" k)
other_key-perform st auth_checked k h = refl
other_key-perform st (error_seen status) k h = ground (arith, get-remove_item st "token" k)

-- No row of calls changes what is stored under another key than `token`.
get-run_other :
    (st : Storage) (cs : List Call) (k : String)
    → ("token" == k) ≡ false
    → get (run st cs) k ≡ get st k
unfolding run
get-run_other st [] k h = refl
get-run_other st (c ∷ cs) k h = get-run_other (perform st c).0 cs k h ∙ other_key-perform st c k h

-- What the specification says of the `Authorization` header: that of the token in force, if it is
-- not empty, and else what the caller gave.
abbrev pub authorization : Option String → Headers → Option String
authorization none base = get base "authorization"
authorization (some t) base = if truthy t then some ("Bearer " ++ t) else get base "authorization"

-- After any row of calls, the `Authorization` header of a request is `Bearer` and the token in force,
-- if there is one that is not empty, and else what the caller gave; each other header is the
-- caller's, or the default one that asks for JSON where the caller gave none. And the check before a
-- page succeeds exactly when a token that is not empty is in force.
pub request_headers-run :
    (st : Storage) (cs : List Call) (headers : Option Headers) (k : String)
    → (get (request_headers (run st cs) headers) k ≡ (
        if "authorization" == k
        then authorization (session (token_of st) cs) (base_headers headers)
        else get (base_headers headers) k))
      × ((check_auth (run st cs)).1
          ≡ (if given (session (token_of st) cs) then resolved else rejected))
unfolding request_headers check_auth
request_headers-run st cs headers k =
    let base = base_headers headers in
    (
      elim (Option-cases (token_of (run st cs))) [
        | inl missing ↦ ground (arith, token_of-run st cs, ==_iff {K = String} "authorization" k)
        | inr (t, there) ↦ ground (
          arith,
          token_of-run st cs,
          get-put base "authorization" k ("Bearer " ++ t),
          ==_iff {K = String} "authorization" k,
        )
      ],
      ground (arith, token_of-run st cs),
    )
