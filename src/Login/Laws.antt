-- ===== src/Login/Laws.antt =====
-- The form together with the provider that it logs in to.
use phan_tan_dkron_giuaky.Common.{
  ◌≡◌, refl, ap, ◌∙◌, sym, subst, Bool, true, false, Option, some, List, [], ◌∷◌, String,
  if◌then◌else◌, All, arith, put, get, get-put, string_eq,
}
use Prim.Native.String.{◌++◌}
use phan_tan_dkron_giuaky.Diagram.Defs.{truthy}
use phan_tan_dkron_giuaky.Session.{
  Storage, Settled, resolved, rejected, login, Headers, request_headers, base_headers, check_auth,
  given,
}
use phan_tan_dkron_giuaky.Login.{
  State, Event, typed, submitted, login_settled, react, react_all, opened, handle_submit,
  login_ended,
}

-- The texts typed before the first submission; the last of them, or `t`.
abbrev pub last_typed : String → List Event → String
last_typed t [] = t
last_typed t (typed u ∷ es) = last_typed u es
last_typed t (submitted ∷ es) = t
last_typed t (login_settled ∷ es) = last_typed t es

-- Whether the form was submitted.
abbrev pub was_submitted : List Event → Bool
was_submitted [] = false
was_submitted (typed t ∷ es) = was_submitted es
was_submitted (submitted ∷ es) = true
was_submitted (login_settled ∷ es) = was_submitted es

-- A login that went through: no notice, and the form stays disabled.
pub record Sent (st : Storage) (s : State) : Type 0 where
  pub storage : s.storage ≡ st
  pub notices : s.notices ≡ 0
  pub loading : s.loading ≡ true
  pub waiting : All (λ p. p ≡ resolved) s.pending

ended-Sent :
    (st : Storage) (s : State) (ps : List Settled)
    → All (λ p. p ≡ resolved) ps
    → Sent st s
    → Sent st (login_ended s ps)
unfolding login_ended
ended-Sent st s [] a v = v
ended-Sent st s (resolved ∷ ps) a v = record {
  storage = v.storage;
  notices = v.notices;
  loading = v.loading;
  waiting = a.1;
}
ended-Sent st s (rejected ∷ ps) a v = cc

submit-Sent :
    (st : Storage) (s : State) → Sent st s → Sent st (if s.loading then s else handle_submit s)
submit-Sent st s v = subst (λ b. Sent st (if b then s else handle_submit s)) (sym v.loading) v

react_all-Sent : (st : Storage) (s : State) (es : List Event) → Sent st s → Sent st (react_all s es)
unfolding react_all react
react_all-Sent st s [] v = v
react_all-Sent st s (typed t ∷ es) v =
    react_all-Sent st (record s { token = t }) es
      (record {
        storage = v.storage;
        notices = v.notices;
        loading = v.loading;
        waiting = v.waiting;
      })
react_all-Sent st s (submitted ∷ es) v =
    react_all-Sent st (if s.loading then s else handle_submit s) es (submit-Sent st s v)
react_all-Sent st s (login_settled ∷ es) v =
    react_all-Sent st (login_ended s s.pending) es (ended-Sent st s s.pending v.waiting v)

-- A form with no login going on.
record Open (st : Storage) (t : String) (s : State) : Type 0 where
  token : s.token ≡ t
  storage : s.storage ≡ st
  notices : s.notices ≡ 0
  loading : s.loading ≡ false
  waiting : s.pending ≡ []

react_all-Open :
    (st : Storage) (t : String) (s : State) (es : List Event)
    → Open st t s
    → was_submitted es ≡ true
    → Sent (put st "token" (last_typed t es)) (react_all s es)
unfolding react_all react handle_submit login login_ended
react_all-Open st t s [] o h = ground (arith, h)
react_all-Open st t s (typed u ∷ es) o h =
    react_all-Open st u (record s { token = u }) es
      (record {
        token = refl;
        storage = o.storage;
        notices = o.notices;
        loading = o.loading;
        waiting = o.waiting;
      })
      h
react_all-Open st t s (submitted ∷ es) o h =
    react_all-Sent (put st "token" t) (if s.loading then s else handle_submit s) es (
      subst (λ b. Sent (put st "token" t) (if b then s else handle_submit s)) (sym o.loading)
        (record {
          storage = rw (o.token, o.storage) refl;
          notices = o.notices;
          loading = refl;
          waiting = rw o.waiting (refl, tt);
        }))
react_all-Open st t s (login_settled ∷ es) o h =
    react_all-Open st t (login_ended s s.pending) es
      (subst (λ ps. Open st t (login_ended s ps)) (sym o.waiting) o) h

-- Once the form is submitted, whatever is typed, submitted or settled after that, the storage holds
-- the token that stood in the form when it was first submitted, and is otherwise as it was; the form
-- stays disabled; and the notice of an invalid token is never shown, since the provider refuses no
-- token at the login.
pub react_all-opened-Sent :
    (st : Storage) (es : List Event)
    → was_submitted es ≡ true
    → Sent (put st "token" (last_typed "" es)) (react_all (opened st) es)
react_all-opened-Sent st es h =
    react_all-Open st "" (opened st) es
      (record { token = refl; storage = refl; notices = refl; loading = refl; waiting = refl }) h

-- A stored token that is not empty is sent and let through.
authorized :
    (st : Storage) (t : String) (headers : Option Headers)
    → get st "token" ≡ some t
    → truthy t ≡ true
    → (get (request_headers st headers) "authorization" ≡ some ("Bearer " ++ t))
      × ((check_auth st).1 ≡ resolved)
unfolding request_headers check_auth given
authorized st t headers h full = (
  ground (
    arith,
    h,
    full,
    get-put (base_headers headers) "authorization" "authorization" ("Bearer " ++ t),
  ),
  ground (arith, h, full),
)

-- Once the form is submitted with a token that is not empty, and whatever follows on the page, each
-- request carries `Bearer` and that token in its `Authorization` header, and the check before a page
-- succeeds.
pub react_all-opened_authorized :
    (st : Storage) (es : List Event) (headers : Option Headers)
    → was_submitted es ≡ true
    → truthy (last_typed "" es) ≡ true
    → (get (request_headers (react_all (opened st) es).storage headers) "authorization"
        ≡ some ("Bearer " ++ last_typed "" es))
      × ((check_auth (react_all (opened st) es).storage).1 ≡ resolved)
react_all-opened_authorized st es headers h t =
    let v = react_all-opened-Sent st es h in
    authorized (react_all (opened st) es).storage (last_typed "" es) headers
      (ap (λ st. get st "token") v.storage ∙ get-put st "token" "token" (last_typed "" es)) t
