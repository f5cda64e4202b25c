-- ===== src/Tests/Pages.antt =====
-- The pages: an execution whose output is loaded, a login, and a date that is cleared.
use phan_tan_dkron_giuaky.Common.{
  ◌≡◌, refl, true, some, none, List, [], ◌∷◌, String, put, get, string_eq,
}
use phan_tan_dkron_giuaky.Jobs.Full.{
  Execution, State, Run, Step, opened, handle_click, settle, response, is_full,
}
use phan_tan_dkron_giuaky.Jobs.Full.Laws.{IsValid, Run-opened-IsValid}
use phan_tan_dkron_giuaky.Jobs.Fields.{Fields, zero_date}
use phan_tan_dkron_giuaky.Session.{Storage, request_headers, check_auth, resolved}
use phan_tan_dkron_giuaky.Login
use phan_tan_dkron_giuaky.Login.{typed, submitted, login_settled, react_all}
use phan_tan_dkron_giuaky.Login.Laws.{Sent, react_all-opened-Sent, react_all-opened_authorized}

abbrev execution : Execution
execution = record {
  id = "17";
  job_name = "load";
  output_truncated = some true;
  output = some "12";
}

abbrev api : String
api = "/v1"

abbrev asked : State
asked = handle_click api (opened execution)

abbrev loaded : State
loaded = settle api asked (response 200 (some (some "123")))

loaded-Run : Run api (opened execution) loaded
unfolding handle_click is_full
loaded-Run =
    Run.next (Run.next Run.here (Step.click refl refl))
      (Step.settled 0 (response 200 (some (some "123"))) refl)

Run-opened-IsValid_example : IsValid api execution loaded
Run-opened-IsValid_example = Run-opened-IsValid api execution loaded loaded-Run

abbrev before : Storage
before = ("token", "old") ∷ []

abbrev events : List Login.Event
events = typed "s" ∷ typed "secret" ∷ submitted ∷ typed "x" ∷ submitted ∷ login_settled ∷ []

react_all-opened-Sent_example :
    Sent (put before "token" "secret") (react_all (Login.opened before) events)
react_all-opened-Sent_example = react_all-opened-Sent before events refl

react_all-opened_authorized_example :
    (get (request_headers (react_all (Login.opened before) events).storage none) "authorization"
      ≡ some "Bearer secret")
    × ((check_auth (react_all (Login.opened before) events).storage).1 ≡ resolved)
react_all-opened_authorized_example = react_all-opened_authorized before events none refl refl

abbrev fields : Fields
fields = ("id", some "17") ∷ ("finished_at", some zero_date) ∷ []
