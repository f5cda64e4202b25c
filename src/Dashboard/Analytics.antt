-- ===== src/Dashboard/Analytics.antt =====
-- `dkron/ui/src/dashboard/Dashboard.tsx`, lines 68 to 96: the state of `Dashboard` and the effect that
-- loads the analytics. The promise goes through `then` or `catch`, and then through `finally`; the
-- component may be unmounted between any two of them.
pub mod Laws
use phan_tan_dkron_giuaky.Common.{Bool, true, false, Option, some, none, String, if◌then◌else◌, ◌≡◌}

-- What the request can be rejected with: an `Error` with its message, or another value.
pub data Thrown : Type 0 where
  error_object : String → Thrown
  other_value : Thrown

-- `error instanceof Error ? error.message : 'Unable to load analytics data'`
unfoldable pub message_of : Thrown → String
message_of (error_object message) = message
message_of other_value = "Unable to load analytics data"

-- How the promise of the request ends: with the JSON of the answer, which is missing where the answer
-- has none or `null`, or rejected.
pub data Outcome (Data : Type 0) : Type 0 where
  fetched : Option Data → Outcome Data
  rejected : Thrown → Outcome Data

-- How far the promise is: awaited, through `then` or `catch`, and through `finally`.
pub data Phase (Data : Type 0) : Type 0 where
  waiting : Phase Data
  answered finished : Outcome Data → Phase Data

-- `active` is the variable of the effect; the three after it are the state of the component.
pub record State (Data : Type 0) : Type 0 where
  pub phase : Phase Data
  pub active : Bool
  pub analytics : Option Data
  pub loading : Bool
  pub error : Option String

module _ {Data : Type 0} where
  abbrev pub mounted : State Data
  mounted = record {
    phase = waiting;
    active = true;
    analytics = none;
    loading = true;
    error = none;
  }

  -- `.then(({ json }) => …)`
  unfoldable pub on_json : State Data → Option Data → State Data
  on_json s json =
      if s.active
      then record s { phase = answered (fetched json); analytics = json; error = none }
      else record s { phase = answered (fetched json) }

  -- `.catch((error) => …)`
  unfoldable pub on_error : State Data → Thrown → State Data
  unfolding message_of
  on_error s thrown =
      if s.active
      then record s { phase = answered (rejected thrown); error = some (message_of thrown) }
      else record s { phase = answered (rejected thrown) }

  -- `.finally(() => …)`
  unfoldable pub on_finally : State Data → Outcome Data → State Data
  on_finally s o =
      if s.active
      then record s { phase = finished o; loading = false }
      else record s { phase = finished o }

  -- The clean-up of the effect.
  unfoldable pub on_unmount : State Data → State Data
  on_unmount s = record s { active = false }

  pub data Step (s : State Data) : State Data → Type 0 where
    json : (d : Option Data) → s.phase ≡ waiting → Step s (on_json s d)
    failure : (t : Thrown) → s.phase ≡ waiting → Step s (on_error s t)
    settled : (o : Outcome Data) → s.phase ≡ answered o → Step s (on_finally s o)
    unmount : Step s (on_unmount s)

  pub data Run (s : State Data) : State Data → Type 0 where
    here : Run s s
    next : {t u : State Data} → Run s t → Step t u → Run s u
