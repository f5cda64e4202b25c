-- ===== src/Actions/Button.antt =====
-- `dkron/ui/src/jobs/RunButton.tsx` and `ToggleButton.tsx`.
pub mod Laws
use Prim.Native.String.{◌++◌}
use phan_tan_dkron_giuaky.Common.{
  ℕ, suc, ◌+◌, ◌-◌, ◌≡◌, Bool, true, false, Option, some, none, List, [], ◌∷◌, String,
  if◌then◌else◌, foldl,
}

-- The two buttons differ in the path and in the texts of the notices.
pub data Kind : Type 0 where
  run toggle : Kind

pub record Request : Type 0 where
  pub url : String
  pub method : String

unfoldable pub request_for : Kind → String → String → Request
request_for run api id = record { url = api ++ "/jobs/" ++ id; method = "POST" }
request_for toggle api id = record { url = api ++ "/jobs/" ++ id ++ "/toggle"; method = "POST" }

pub data Notice : Type 0 where
  info warning : String → Notice

unfoldable pub success_notice : Kind → Notice
success_notice run = info "Success running job"
success_notice toggle = info "Job toggled"

unfoldable pub failure_notice : Kind → Notice
failure_notice run = warning "Error on running job"
failure_notice toggle = warning "Error on toggle job"

-- `loading` is the state of the component. The requests sent, the notices (the last first) and the
-- number of refreshes are what it has done. `pending` counts the promises that are not settled.
pub record State : Type 0 where
  pub loading : Bool
  pub sent : List Request
  pub pending : ℕ
  pub notices : List Notice
  pub refreshes : ℕ

abbrev pub idle : State
idle = record { loading = false; sent = []; pending = 0; notices = []; refreshes = 0 }

-- A button with `disabled` set takes no click, and a request ends
-- only if one is pending.
module _ (kind : Kind) (api : String) (record_id : Option String) where
  -- `handleClick`
  unfoldable pub handle_click : State → State
  handle_click s = elim record_id [
    | none ↦ s
    | some id ↦ record s {
      loading = true;
      sent = request_for kind api id ∷ s.sent;
      pending = suc s.pending;
    }
  ]

  -- `.then(…).finally(…)`
  unfoldable pub handle_success : State → State
  handle_success s = record s {
    loading = false;
    pending = s.pending - 1;
    notices = success_notice kind ∷ s.notices;
    refreshes = suc s.refreshes;
  }

  -- `.catch(…).finally(…)`
  unfoldable pub handle_failure : State → State
  handle_failure s = record s {
    loading = false;
    pending = s.pending - 1;
    notices = failure_notice kind ∷ s.notices;
  }

  -- The events that can happen now.
  pub data Step (s : State) : State → Type 0 where
    click : s.loading ≡ false → Step s (handle_click s)
    success : (n : ℕ) → s.pending ≡ suc n → Step s (handle_success s)
    failure : (n : ℕ) → s.pending ≡ suc n → Step s (handle_failure s)

  pub data Run (s : State) : State → Type 0 where
    here : Run s s
    next : {t u : State} → Run s t → Step t u → Run s u
