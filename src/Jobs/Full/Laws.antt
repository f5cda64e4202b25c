-- ===== src/Jobs/Full/Laws.antt =====
-- What the button leaves of the record that it shares, whatever answers its requests get.
use phan_tan_dkron_giuaky.Common.{
  ℕ, suc, ◌+◌, ◌≡◌, refl, ◌∙◌, ◌⊎◌, inl, inr, Bool, true, false, some, none, List, ◌∷◌, String,
  if◌then◌else◌, eqb, Bool-cases, All, arith, length,
}
use phan_tan_dkron_giuaky.Jobs.Full.{
  Execution, State, Answer, response, rejection, execution_url, opened, take_answer, is_full,
  handle_click, settle, Step, Run,
}

-- A response with the status 200.
pub loads : Answer → Bool
loads rejection = false
loads (response status json) = eqb status 200

-- The record as it was, with no response of status 200 so far.
pub record Unloaded (e : Execution) (s : State) : Type 0 where
  pub refused : All (λ a. loads a ≡ false) s.answers
  pub untouched : s.execution ≡ e

-- The record as the last answer leaves it, the only one with the status 200, and nothing more to come.
pub record Loaded (e : Execution) (s : State) : Type 0 where
  pub last : Answer
  pub others : List Answer
  pub split : s.answers ≡ last ∷ others
  pub refused : All (λ a. loads a ≡ false) others
  pub loading : loads last ≡ true
  pub taken : s.execution ≡ (take_answer e last).0
  pub full : is_full s.execution ≡ true
  pub settled : s.pending ≡ 0

pub record IsValid (api : String) (e : Execution) (s : State) : Type 0 where
  pub busy : s.pending ≡ (if s.loading then 1 else 0)
  pub told : length s.sent ≡ s.pending + length s.answers
  pub same : All (λ url. url ≡ execution_url api e) s.sent
  pub outcome : Unloaded e s ⊎ Loaded e s

take_refused : (e : Execution) (a : Answer) → loads a ≡ false → (take_answer e a).0 ≡ e
unfolding take_answer loads
take_refused e rejection h = refl
take_refused e (response status json) h = rw h refl

take_full : (e : Execution) (a : Answer) → loads a ≡ true → is_full (take_answer e a).0 ≡ true
unfolding take_answer loads is_full
take_full e rejection h = ground (arith, h)
take_full e (response status none) h = rw h refl
take_full e (response status (some output)) h = rw h refl

module _ (api : String) (e : Execution) where
  click-IsValid :
      (s : State)
      → is_full s.execution ≡ false
      → s.loading ≡ false
      → IsValid api e s
      → IsValid api e (handle_click api s)
  unfolding handle_click
  click-IsValid s partial free v = elim v.outcome [
    | inl u ↦ record {
      busy = ground (arith, v.busy, free);
      told = omega (arith, v.told);
      same = (rw u.untouched refl, v.same);
      outcome = inl (record { refused = u.refused; untouched = u.untouched });
    }
    | inr l ↦ ground (arith, l.full, partial)
  ]

  settle-IsValid :
      (s : State) (a : Answer) (n : ℕ)
      → s.pending ≡ suc n
      → IsValid api e s
      → IsValid api e (settle api s a)
  unfolding settle
  settle-IsValid s a n waiting v = elim v.outcome [
    | inr l ↦ ground (arith, l.settled, waiting)
    | inl u ↦ record {
      busy = ground (arith, v.busy, waiting);
      told = omega (arith, v.told, waiting);
      same = v.same;
      outcome = elim (Bool-cases (loads a)) [
        | inl h ↦ inr (record {
          last = a;
          others = s.answers;
          split = refl;
          refused = u.refused;
          loading = h;
          taken = rw u.untouched refl;
          full = take_full s.execution a h;
          settled = ground (arith, v.busy, waiting);
        })
        | inr h ↦ inl (record {
          refused = (h, u.refused);
          untouched = take_refused s.execution a h ∙ u.untouched;
        })
      ];
    }
  ]

  Step-IsValid : {s t : State} → Step api s t → IsValid api e s → IsValid api e t
  Step-IsValid {s} (Step.click partial free) v = click-IsValid s partial free v
  Step-IsValid {s} (Step.settled n a waiting) v = settle-IsValid s a n waiting v

  -- In every state that the button comes to, from clicks while it is there and enabled and from any
  -- answers: it is disabled exactly while its one request is pending; each request sent is for this
  -- execution and is pending or has its one answer; and the record is as it was, if no answer had
  -- the status 200, or else it is marked as full, as the last answer leaves it, which is the only
  -- one with that status, and no request is pending.
  pub Run-opened-IsValid : (s : State) → Run api (opened e) s → IsValid api e s
  Run-opened-IsValid s Run.here = record {
    busy = refl;
    told = omega arith;
    same = tt;
    outcome = inl (record { refused = tt; untouched = refl });
  }
  Run-opened-IsValid s (Run.next {t = t} r step) = Step-IsValid step (Run-opened-IsValid t r)
