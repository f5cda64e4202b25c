-- ===== src/Actions/Bulk.antt =====
-- `dkron/ui/src/jobs/BulkRunButton.tsx` and `BulkToggleButton.tsx`.
pub mod Laws
use phan_tan_dkron_giuaky.Common.{
  ℕ, suc, ◌≡◌, Bool, true, false, List, [], ◌∷◌, ◌++◌, String, eqb, if◌then◌else◌, foldl,
}
use phan_tan_dkron_giuaky.Actions.Button.{
  Kind, run, toggle, Request, request_for, Notice, info, warning, success_notice,
}

unfoldable pub bulk_failure_notice : Kind → Notice
bulk_failure_notice run = warning "Error on running job"
bulk_failure_notice toggle = warning "Error on job toggle"

-- `loading` is the state of the component; `pending` holds the requests whose promise is not
-- settled; the rest is what the component has done, the last notice first.
pub record State : Type 0 where
  pub loading : Bool
  pub sent : List Request
  pub pending : List Request
  pub notices : List Notice
  pub refreshes : ℕ

abbrev pub idle : State
idle = record { loading = false; sent = []; pending = []; notices = []; refreshes = 0 }

module _ (kind : Kind) (api : String) where
  -- The body of the loop in `runMany` and `toggleMany`.
  unfoldable pub send : State → String → State
  send s id =
      let r = request_for kind api id in
      record s { loading = true; sent = s.sent ++ r ∷ []; pending = s.pending ++ r ∷ [] }

  -- `runMany` and `toggleMany`, but for the call of `unselectAll`.
  unfoldable pub send_all : State → List String → State
  unfolding send
  send_all s ids = foldl send s ids

  -- `.then(…).finally(…)` and `.catch(…).finally(…)`, with what is pending afterwards.
  unfoldable pub settle : State → List Request → Notice → State
  settle s rest notice = record s {
    loading = false;
    pending = rest;
    notices = notice ∷ s.notices;
    refreshes = suc s.refreshes;
  }

  -- The notice of a request that ended, well or not.
  unfoldable pub notice_for : Bool → Notice
  notice_for true = success_notice kind
  notice_for false = bulk_failure_notice kind

  -- The button is clicked while it is enabled, with the selection that the list has then; or some
  -- pending request, not the first sent of necessity, ends.
  pub data Step (s : State) : State → Type 0 where
    click : (ids : List String) → s.loading ≡ false → Step s (send_all s ids)
    settled :
        (before after : List Request) (r : Request) (fine : Bool)
        → s.pending ≡ before ++ r ∷ after
        → Step s (settle s (before ++ after) (notice_for fine))

  pub data Run (s : State) : State → Type 0 where
    here : Run s s
    next : {t u : State} → Run s t → Step t u → Run s u
