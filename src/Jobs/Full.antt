-- ===== src/Jobs/Full.antt =====
-- `dkron/ui/src/jobs/JobShow.tsx`: `FullButton`, which loads the whole output of an execution and
-- writes it into the record that the list of executions shares with it, and `SpecialOutputPanel`.
pub mod Laws
use Prim.Native.String.{◌++◌ as glue}
use phan_tan_dkron_giuaky.Common.{
  ℕ, suc, ◌-◌, ◌≡◌, Bool, true, false, Option, some, none, List, [], ◌∷◌, String, if◌then◌else◌,
  eqb, Element, Elements, el, prop, on, str, said, kids, bool, is, bare, shown_if, join,
}
use phan_tan_dkron_giuaky.Actions.Button.{Notice, info, warning}
use phan_tan_dkron_giuaky.Diagram.Defs.{or_text}

-- The fields of an execution that the button reads; `none` is `undefined` or `null`.
pub record Execution : Type 0 where
  pub id : String
  pub job_name : String
  pub output_truncated : Option Bool
  pub output : Option String

unfoldable pub execution_url : String → Execution → String
execution_url api e = glue api (glue "/jobs/" (glue e.job_name (glue "/executions/" e.id)))

-- How the request ends: with a response, whose JSON is `none` where there is none, and else has an
-- output or not; or with a rejection.
pub data Answer : Type 0 where
  response : ℕ → Option (Option String) → Answer
  rejection : Answer

-- `loading` is the state of the component. The notices, the answers (both the last first) and the URLs
-- asked for are what has happened. `pending` counts the promises that are not settled.
pub record State : Type 0 where
  pub execution : Execution
  pub loading : Bool
  pub pending : ℕ
  pub sent : List String
  pub answers : List Answer
  pub notices : List Notice

abbrev pub opened : Execution → State
opened e = record {
  execution = e;
  loading = false;
  pending = 0;
  sent = [];
  answers = [];
  notices = [];
}

abbrev pub loaded_notice : Notice
loaded_notice = info "Success loading full output"

abbrev pub failed_notice : Notice
failed_notice = warning "Error on loading full output"

-- The two `then` blocks and the `catch` block: what they leave of the record, and their notices. Where
-- the JSON is missing, the second block marks the record and throws before it writes the output.
unfoldable pub take_answer : Execution → Answer → Execution × List Notice
take_answer e rejection = (e, failed_notice ∷ [])
take_answer e (response status json) =
    if eqb status 200
    then elim json [
      | none ↦ (record e { output_truncated = some false }, failed_notice ∷ loaded_notice ∷ [])
      | some output ↦
          (record e { output_truncated = some false; output = output }, loaded_notice ∷ [])
    ]
    else (e, failed_notice ∷ [])

abbrev pub prepend : List Notice → List Notice → List Notice
prepend [] ms = ms
prepend (n ∷ ns) ms = n ∷ prepend ns ms

-- `record.output_truncated === false`
unfoldable pub is_full : Execution → Bool
is_full e = elim e.output_truncated [ none ↦ false | some true ↦ false | some false ↦ true ]

module _ (api : String) where
  unfoldable pub handle_click : State → State
  unfolding execution_url
  handle_click s = record s {
    loading = true;
    pending = suc s.pending;
    sent = execution_url api s.execution ∷ s.sent;
  }

  -- All blocks of the promise, `finally` included
  unfoldable pub settle : State → Answer → State
  unfolding take_answer
  settle s a = record s {
    execution = (take_answer s.execution a).0;
    loading = false;
    pending = s.pending - 1;
    answers = a ∷ s.answers;
    notices = prepend (take_answer s.execution a).1 s.notices;
  }

  -- The button is there until the record is marked as full, and takes a click while it is enabled.
  pub data Step (s : State) : State → Type 0 where
    click : is_full s.execution ≡ false → s.loading ≡ false → Step s (handle_click s)
    settled : (n : ℕ) (a : Answer) → s.pending ≡ suc n → Step s (settle s a)

  pub data Run (s : State) : State → Type 0 where
    here : Run s s
    next : {t u : State} → Run s t → Step t u → Run s u

-- What the button's handler does.
pub data Action : Type 0 where
  load_full_output : Action

-- `FullButton` itself: the output, if there is one, or the button
unfoldable pub full_button : State → Elements Action
unfolding is_full
full_button s =
    if is_full s.execution
    then kids (elim s.execution.output [ none ↦ [] | some output ↦ said output ∷ [] ])
    else kids (
        el "Button"
          (is "label" "Load full output"
            ∷ on "onClick" load_full_output
            ∷ prop "disabled" (bool s.loading)
            ∷ [])
          (kids (bare "FullIcon" ∷ []))
        ∷ [])

-- `record.output_truncated`, as a condition
unfoldable pub is_truncated : Execution → Bool
is_truncated e = elim e.output_truncated [ none ↦ false | some b ↦ b ]

-- `SpecialOutputPanel`: nothing without a record
unfoldable pub special_output_panel : Option State → Option (Element Action)
unfolding is_truncated full_button
special_output_panel none = none
special_output_panel (some s) = some (
    el "Box" [] (
      join (shown_if (is_truncated s.execution) (el "Box" [] (full_button s)))
        (kids (said (or_text s.execution.output "Nothing to show") ∷ []))))
