-- ===== src/Tests/Buttons.antt =====
-- The buttons, followed through one click.
use phan_tan_dkron_giuaky.Common.{
  ◌≡◌, refl, ◌<◌, true, false, some, [], ◌∷◌, ◌++◌, map, String, length,
}
use phan_tan_dkron_giuaky.Actions.Button
use phan_tan_dkron_giuaky.Actions.Button.{
  run, toggle, Request, request_for, handle_click, handle_failure,
}
use phan_tan_dkron_giuaky.Actions.Button.Laws.{IsValid, Run-idle-IsValid}
use phan_tan_dkron_giuaky.Actions.Bulk
use phan_tan_dkron_giuaky.Actions.Bulk.{send_all, settle, notice_for, send}
use phan_tan_dkron_giuaky.Actions.Bulk.Laws
use phan_tan_dkron_giuaky.Actions.Bulk.Laws.{Run-idle-IsValid_bulk, enabled_while_pending}

abbrev api : String
api = "http://localhost:8080/v1"

-- A click, and then a refusal.
abbrev clicked : Button.State
clicked = handle_click run api (some "load") Button.idle

abbrev refused : Button.State
refused = handle_failure run api (some "load") clicked

refused-run : Button.Run run api (some "load") Button.idle refused
unfolding handle_click
refused-run =
    Button.Run.next (Button.Run.next Button.Run.here (Button.Step.click refl))
      (Button.Step.failure 0 refl)

Run-idle-IsValid_example : IsValid run api (some "load") refused
Run-idle-IsValid_example = Run-idle-IsValid run api (some "load") refused refused-run

-- Two jobs are toggled, and the second request ends first.
abbrev two : Bulk.State
two = send_all toggle api Bulk.idle ("load" ∷ "mail" ∷ [])

abbrev first : Request
first = request_for toggle api "load"

abbrev second : Request
second = request_for toggle api "mail"

two_pending : two.pending ≡ (first ∷ []) ++ second ∷ []
unfolding send_all send
two_pending = refl

abbrev half : Bulk.State
half = settle toggle api two (first ∷ []) (notice_for toggle api true)

half-Run : Bulk.Run toggle api Bulk.idle half
half-Run =
    Bulk.Run.next (Bulk.Run.next Bulk.Run.here (Bulk.Step.click ("load" ∷ "mail" ∷ []) refl))
      (Bulk.Step.settled (first ∷ []) [] second true two_pending)

Run-idle-IsValid_bulk_example : Laws.IsValid toggle api half
Run-idle-IsValid_bulk_example = Run-idle-IsValid_bulk toggle api half half-Run

half-Step : Bulk.Step toggle api two half
half-Step = Bulk.Step.settled (first ∷ []) [] second true two_pending

enabled_while_pending_example :
    (two.loading ≡ true)
    × (half.loading ≡ false)
    × (0 < length half.pending)
    × (length half.notices ≡ 1)
    × (half.sent ≡ [] ++ map (request_for toggle api) ("load" ∷ "mail" ∷ []))
    × ((send_all toggle api half ("load" ∷ "mail" ∷ [])).sent
        ≡ half.sent ++ map (request_for toggle api) ("load" ∷ "mail" ∷ []))
    × Bulk.Step toggle api half (send_all toggle api half ("load" ∷ "mail" ∷ []))
enabled_while_pending_example =
    enabled_while_pending toggle api Bulk.idle "load" "mail" [] half half-Step
