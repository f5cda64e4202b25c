-- ===== src/Login.antt =====
-- `dkron/ui/src/LoginPage.tsx`: the form for the access token. What `useLogin` does with the token is
-- to call `login` of the provider, `Session.login`, and to go to another page when that succeeds.
pub mod Laws
use phan_tan_dkron_giuaky.Common.{
  ℕ, suc, ◌-◌, ◌≡◌, Bool, true, false, Option, some, none, List, [], ◌∷◌, String, if◌then◌else◌,
  Element, el, prop, on, str, said, kids, box, bool, is, leaf, flag,
}
use phan_tan_dkron_giuaky.Session.{Storage, Settled, resolved, rejected, login}

-- The state of the page, with the browser's storage, the promises that are not settled, each with how
-- it will end, and the number of notices `Invalid token` so far.
pub record State : Type 0 where
  pub token : String
  pub loading : Bool
  pub storage : Storage
  pub pending : List Settled
  pub notices : ℕ

abbrev pub opened : Storage → State
opened st = record { token = ""; loading = false; storage = st; pending = []; notices = 0 }

-- `onChange`, `handleSubmit`, and the end of a promise: of `login({ token }).catch(…)`, only a
-- rejection does something.
pub data Event : Type 0 where
  typed : String → Event
  submitted : Event
  login_settled : Event

unfoldable pub handle_submit : State → State
handle_submit s =
    let outcome = login s.token s.storage in
    record s { loading = true; storage = outcome.0; pending = outcome.1 ∷ s.pending }

unfoldable pub login_ended : State → List Settled → State
login_ended s [] = s
login_ended s (resolved ∷ ps) = record s { pending = ps }
login_ended s (rejected ∷ ps) = record s { loading = false; pending = ps; notices = suc s.notices }

-- The form is not submitted while its button is disabled.
unfoldable pub react : State → Event → State
unfolding handle_submit login_ended
react s (typed t) = record s { token = t }
react s submitted = if s.loading then s else handle_submit s
react s login_settled = login_ended s s.pending

unfoldable pub react_all : State → List Event → State
unfolding react
react_all s [] = s
react_all s (e ∷ es) = react_all (react s e) es

-- The page, with what its handlers do.
pub data Action : Type 0 where
  submit : Action
  -- `setToken(e.target.value)`
  type_token : Action

unfoldable pub login_button : Bool → Element Action
login_button loading =
    el "Button"
      (is "variant" "contained"
        ∷ is "type" "submit"
        ∷ is "color" "primary"
        ∷ prop "disabled" (bool loading)
        ∷ flag "fullWidth"
        ∷ is "size" "large"
        ∷ [])
      (kids ((if loading then leaf "CircularProgress" [] else said "Sign In") ∷ []))

unfoldable pub login_form : State → Element Action
unfolding login_button
login_form s = el "form" (on "onSubmit" submit ∷ []) (
    kids (
      box "CardContent" (
        leaf "TextField" (
          is "name" "token"
          ∷ is "label" "Access Token"
          ∷ is "type" "password"
          ∷ is "value" s.token
          ∷ on "onChange" type_token
          ∷ flag "fullWidth"
          ∷ is "variant" "outlined"
          ∷ is "margin" "normal"
          ∷ flag "autoFocus"
          ∷ [])
        ∷ login_button s.loading
        ∷ [])
      ∷ []))

unfoldable pub login_page : State → Element Action
unfolding login_form
login_page s = box "Root" (
    box "Card" (
      box "Box" (
        box "Box" (leaf "img" (is "src" "logo" ∷ is "alt" "Dkron" ∷ []) ∷ [])
        ∷ el "Typography" (is "variant" "h5" ∷ is "component" "h1" ∷ [])
            (kids (said "Welcome Back" ∷ []))
        ∷ el "Typography" (is "variant" "body2" ∷ [])
            (kids (said "Sign in to access your job scheduler" ∷ []))
        ∷ [])
      ∷ login_form s
      ∷ [])
    ∷ el "Typography" (is "variant" "body2" ∷ [])
        (kids (said "Dkron - Distributed Job Scheduling System" ∷ []))
    ∷ [])
