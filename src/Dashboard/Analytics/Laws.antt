-- ===== src/Dashboard/Analytics/Laws.antt =====
-- What the component's state can be at each phase of the request, and that it is left alone once the
-- component is gone.
use phan_tan_dkron_giuaky.Common.{
  Bool, true, false, Option, some, none, String, ◌≡◌, refl, ◌∙◌, arith,
}
use phan_tan_dkron_giuaky.Dashboard.Analytics.{
  Thrown, message_of, Outcome, fetched, rejected, Phase, waiting, answered, finished, State,
  mounted, on_json, on_error, on_finally, on_unmount, Step, Run,
}

module _ {Data : Type 0} where
  -- What a component that is still there holds: the data and no error, or the error and no data.
  abbrev pub Holds : Option Data → Option String → Outcome Data → Type 0
  Holds a e (fetched json) = (a ≡ json) × (e ≡ none)
  Holds a e (rejected t) = (a ≡ none) × (e ≡ some (message_of t))

  abbrev pub Shows : Phase Data → Option Data → Bool → Option String → Type 0
  Shows waiting a l e = (l ≡ true) × (a ≡ none) × (e ≡ none)
  Shows (answered o) a l e = (l ≡ true) × Holds a e o
  Shows (finished o) a l e = (l ≡ false) × Holds a e o

  abbrev pub IsValid : State Data → Type 0
  IsValid s = s.active ≡ true → Shows s.phase s.analytics s.loading s.error

  json-IsValid :
      (s : State Data) (d : Option Data) → s.phase ≡ waiting → IsValid s → IsValid (on_json s d)
  unfolding on_json
  json-IsValid s d p v = ground arith

  failure-IsValid :
      (s : State Data) (t : Thrown) → s.phase ≡ waiting → IsValid s → IsValid (on_error s t)
  unfolding on_error
  failure-IsValid s t p v = ground arith

  settled-IsValid :
      (s : State Data) (o : Outcome Data)
      → s.phase ≡ answered o
      → IsValid s
      → IsValid (on_finally s o)
  unfolding on_finally
  settled-IsValid s o p v = ground arith

  Step-IsValid : {s t : State Data} → Step s t → IsValid s → IsValid t
  Step-IsValid {s} (Step.json d p) v = json-IsValid s d p v
  Step-IsValid {s} (Step.failure t p) v = failure-IsValid s t p v
  Step-IsValid {s} (Step.settled o p) v = settled-IsValid s o p v
  Step-IsValid {s} Step.unmount v = λ gone. unfold on_unmount in cc gone

  Run-IsValid : {s t : State Data} → IsValid s → Run s t → IsValid t
  Run-IsValid v Run.here = v
  Run-IsValid v (Run.next r step) = Step-IsValid step (Run-IsValid v r)

  -- The parts of the state that the component shows.
  pub record SameView (s t : State Data) : Type 0 where
    pub still_gone : t.active ≡ false
    pub analytics : t.analytics ≡ s.analytics
    pub loading : t.loading ≡ s.loading
    pub error : t.error ≡ s.error

  Step-gone : {s t : State Data} → Step s t → s.active ≡ false → SameView s t
  unfolding on_json on_error on_finally on_unmount
  Step-gone (Step.json d p) gone = ground arith
  Step-gone (Step.failure t p) gone = ground arith
  Step-gone (Step.settled o p) gone = ground arith
  Step-gone Step.unmount gone = record {
    still_gone = refl;
    analytics = refl;
    loading = refl;
    error = refl;
  }

  -- Once the component is unmounted, no later end of its request changes what it holds.
  pub Run-gone : (s t : State Data) → s.active ≡ false → Run s t → SameView s t
  Run-gone s t gone Run.here = record {
    still_gone = gone;
    analytics = refl;
    loading = refl;
    error = refl;
  }
  Run-gone s t gone (Run.next r step) =
      let before = Run-gone s _ gone r in
      let last = Step-gone step before.still_gone in
      record {
        still_gone = last.still_gone;
        analytics = last.analytics ∙ before.analytics;
        loading = last.loading ∙ before.loading;
        error = last.error ∙ before.error;
      }

  -- In every state that a mounted component comes to: it shows that it is loading until the promise
  -- is settled; while the answer is awaited it has neither data nor an error; after an answer it has the
  -- answer's JSON, which may be missing, and no error; and after a failure no data and the failure's
  -- message.
  pub Run-mounted-Shows :
      (s : State Data)
      → Run mounted s
      → s.active ≡ true
      → Shows s.phase s.analytics s.loading s.error
  Run-mounted-Shows s r here = Run-IsValid {s = mounted} (λ m. (refl, refl, refl)) r here
