-- ===== src/Server/Leader/Calls.antt =====
-- The three handlers of `dkron/dkron/api.go` that change jobs: what they answer, and that they keep the
-- scheduler and the store in step.
use phan_tan_dkron_giuaky.Common.{
  ℕ, suc, ◌≡◌, refl, ap, ◌∙◌, Bool, true, false, not, inl, inr, some, none, String, ℤ, string_eq,
  if◌then◌else◌, get, Bool-cases, Option-cases, arith,
}
use phan_tan_dkron_giuaky.Server.Job.{Job, validate, is_none}
use phan_tan_dkron_giuaky.Server.Cron.{Checks}
use phan_tan_dkron_giuaky.Server.Store.{Jobs, parent_missing}
use phan_tan_dkron_giuaky.Server.Store.Links.{dependent_found}
use phan_tan_dkron_giuaky.Server.Store.Deletes.{removal}
use phan_tan_dkron_giuaky.Server.Scheduler.{CronEngine}
use phan_tan_dkron_giuaky.Server.Scheduler.Zones.{Zoned}
use phan_tan_dkron_giuaky.Server.Leader.{
  Leader, code_of, grpc_set_job, create_or_update, toggle, delete, status_ok, created, bad_request,
  not_found, unavailable,
}
use phan_tan_dkron_giuaky.Server.Leader.Moves.{ListsOwn}
use phan_tan_dkron_giuaky.Server.Leader.InStep.{
  InStep, set_fault, delete_fault, grpc_set_job-InStep, grpc_delete_job-InStep,
}

-- What `jobCreateOrUpdateHandler` answers
unfoldable pub create_code : Checks → Bool → Jobs → Job → ℕ
create_code k paused m j =
    if paused
    then unavailable
    else if not (is_none (validate k j))
    then bad_request
    else if parent_missing m j
    then not_found
    else created

-- What `jobToggleHandler` and `jobDeleteHandler` answer
pub toggle_code : Jobs → String → ℕ
toggle_code m n = elim (get m n) [ none ↦ not_found | some j ↦ status_ok ]

pub delete_code : Jobs → String → ℕ
delete_code m n = if is_none (removal m n) then status_ok else not_found

module _ {k : Checks} (c : CronEngine k) (zoned : Zoned k) where
  pub create_or_update-InStep :
      (now : ℤ) (fuel : ℕ) (paused : Bool) (l : Leader c) (j : Job)
      → InStep c zoned l
      → ListsOwn l.jobs j
      → (l' : Leader c) × (create_or_update c now (suc (suc fuel)) paused l j
          ≡ some (l', create_code k paused l.jobs j))
        × InStep c zoned l'
  unfolding create_or_update create_code set_fault code_of is_none
  create_or_update-InStep now fuel true l j v own = (l, refl, v)
  create_or_update-InStep now fuel false l j v own = elim (Option-cases (validate k j)) [
    | inl valid ↦
        let (l', saved, v') = grpc_set_job-InStep c zoned now fuel l j v valid own in
        (
          l',
          rw (create_or_update, valid)
              (rw saved (elim (Bool-cases (parent_missing l.jobs j)) [
                | inl gone ↦ rw gone refl
                | inr there ↦ rw there refl
              ])),
          v',
        )
    | inr (e, invalid) ↦ (l, rw (create_or_update, invalid) refl, v)
  ]

  toggle_found :
      (now : ℤ) (fuel : ℕ) (l : Leader c) (n : String) (j : Job) (l' : Leader c)
      → get l.jobs n ≡ some j
      → grpc_set_job c now fuel l (record j { disabled = not j.disabled }) ≡ some (l', none)
      → toggle c now fuel l n ≡ some (l', status_ok)
  unfolding toggle
  toggle_found now fuel l n j l' found saved = rw (toggle, found) (rw saved refl)

  pub toggle-InStep :
      (now : ℤ) (fuel : ℕ) (l : Leader c) (n : String)
      → InStep c zoned l
      → (l' : Leader c) × (toggle c now (suc (suc fuel)) l n ≡ some (l', toggle_code l.jobs n))
        × InStep c zoned l'
  unfolding toggle toggle_code set_fault validate parent_missing
  toggle-InStep now fuel l n v = elim (Option-cases (get l.jobs n)) [
    | inl gone ↦ (l, rw (toggle, gone) (rw (toggle_code, gone) refl), v)
    | inr (j, found) ↦
        let named = v.linked.sound.named n j found in
        let there : set_fault l.jobs (record j { disabled = not j.disabled }) ≡ none =
          ground (arith, v.linked.sound.anchored n j found) in
        let (l', saved, v') =
          grpc_set_job-InStep c zoned now fuel l (record j { disabled = not j.disabled }) v
            (v.linked.sound.valid n j found)
            (λ x listed. ground (arith, dependent_found l.jobs n x j found, named)) in
        (
          l',
          toggle_found now (suc (suc fuel)) l n j l' found (saved ∙ ap (λ f. some (l', f)) there)
              ∙ rw (toggle_code, found) refl,
          v',
        )
  ]

  pub delete-InStep :
      (now : ℤ) (fuel : ℕ) (l : Leader c) (n : String)
      → InStep c zoned l
      → (l' : Leader c) × (delete c now (suc fuel) l n ≡ some (l', delete_code l.jobs n))
        × InStep c zoned l'
  unfolding delete delete_code delete_fault is_none
  delete-InStep now fuel l n v =
      let (l', gone, v') = grpc_delete_job-InStep c zoned now fuel l n v in
      (
        l',
        rw gone (elim (Option-cases (removal l.jobs n)) [
          | inl free ↦ rw (delete_fault, free) refl
          | inr (e, kept) ↦ rw (delete_fault, kept) refl
        ]),
        v',
      )
