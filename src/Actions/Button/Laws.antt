-- ===== src/Actions/Button/Laws.antt =====
-- One request at a time, and one notice for each request that ended.
use phan_tan_dkron_giuaky.Common.{
  ℕ, suc, ◌+◌, ◌≡◌, refl, false, Option, some, none, List, [], ◌∷◌, String, if◌then◌else◌, length,
  All, arith,
}
use phan_tan_dkron_giuaky.Actions.Button.{
  Kind, run, toggle, Request, request_for, Notice, info, warning, State, idle, handle_click,
  handle_success, handle_failure, Step, Run, success_notice, failure_notice,
}

-- How many of the notices are not warnings.
pub infos : List Notice → ℕ
infos [] = 0
infos (info s ∷ ns) = suc (infos ns)
infos (warning s ∷ ns) = infos ns

abbrev pub IsPost : Request → Type 0
IsPost r = r.method ≡ "POST"

pub record IsValid (kind : Kind) (api : String) (id : Option String) (s : State) : Type 0 where
  -- While the button is disabled one request is pending, and else none.
  pub busy : s.pending ≡ (if s.loading then 1 else 0)
  -- Each request sent is pending or has its notice.
  pub told : length s.sent ≡ s.pending + length s.notices
  -- The list was refreshed for each success.
  pub fresh : s.refreshes ≡ infos s.notices
  -- Every request is the one for this record, and a POST.
  pub same :
      All (λ r. (i : String) × (id ≡ some i) × (r ≡ request_for kind api i) × IsPost r) s.sent

pub method-request_for : (kind : Kind) (api i : String) → IsPost (request_for kind api i)
unfolding request_for
method-request_for run api i = refl
method-request_for toggle api i = refl

click-IsValid :
    (kind : Kind) (api : String) (id : Option String) (s : State)
    → s.loading ≡ false
    → IsValid kind api id s
    → IsValid kind api id (handle_click kind api id s)
unfolding handle_click
click-IsValid kind api none s free v = v
click-IsValid kind api (some i) s free v = record {
  busy = ground arith;
  told = omega (arith, v.told);
  fresh = v.fresh;
  same = ((i, refl, refl, method-request_for kind api i), v.same);
}

module _ (kind : Kind) (api : String) (id : Option String) where
  Step-IsValid :
      {s t : State} → Step kind api id s t → IsValid kind api id s → IsValid kind api id t
  unfolding handle_success handle_failure success_notice failure_notice infos
  Step-IsValid {s} (Step.click free) v = click-IsValid kind api id s free v
  Step-IsValid (Step.success n h) v = record {
    busy = ground arith;
    told = omega (arith, v.told);
    fresh = ground (arith, v.fresh);
    same = v.same;
  }
  Step-IsValid (Step.failure n h) v = record {
    busy = ground arith;
    told = omega (arith, v.told);
    fresh = ground (arith, v.fresh);
    same = v.same;
  }

  Run-IsValid : {s t : State} → IsValid kind api id s → Run kind api id s t → IsValid kind api id t
  Run-IsValid v Run.here = v
  Run-IsValid v (Run.next r step) = Step-IsValid step (Run-IsValid v r)

-- In every state that the button can come to, from clicks while it is enabled and from requests that
-- end in either way: it is disabled exactly while its one request is pending; each request sent is
-- pending or has had its one notice; the page was refreshed once for each success; and every
-- request is a POST for this record. So while it is enabled nothing is pending.
pub Run-idle-IsValid :
    (kind : Kind) (api : String) (id : Option String) (s : State)
    → Run kind api id idle s
    → IsValid kind api id s
unfolding infos
Run-idle-IsValid kind api id s r =
    Run-IsValid kind api id (record { busy = refl; told = omega arith; fresh = refl; same = tt }) r
