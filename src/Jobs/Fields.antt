-- ===== src/Jobs/Fields.antt =====
-- `dkron/ui/src/jobs/StatusField.tsx`, `EnabledField.tsx` and `ZeroDateField.tsx`, `TagsField.tsx`,
-- and `SuccessField` and `StatusChip` of `jobs/JobShow.tsx`: the fields of a job or an execution.
-- What `useRecordContext` returns is an argument, `none` where there is no record. `none` for a
-- field is `undefined` or `null`.
pub mod Laws
use Prim.Native.String.{◌++◌ as glue}
use phan_tan_dkron_giuaky.Common.{
  ℕ, ◌≡◌, Bool, true, false, Option, some, none, List, [], ◌∷◌, String, if◌then◌else◌, ◌==◌,
  string_eq, get, put, Element, Elements, Attr, el, prop, str, said, kids, box, leaf, bare, is,
  each, slot, text,
}
use phan_tan_dkron_giuaky.Diagram.Defs.{or_text}

-- The texts and colours of a status.
pub record StatusConfig : Type 0 where
  pub icon : String
  pub label : String
  pub color : String
  pub bg_color : String

unfoldable pub get_status_config : Option String → StatusConfig
get_status_config status =
    if or_text status "" == "success"
    then record {
      icon = "SuccessIcon";
      label = "Success";
      color = "#38a169";
      bg_color = "rgba(56, 161, 105, 0.1)";
    }
    else if or_text status "" == "failed"
    then record {
      icon = "FailedIcon";
      label = "Failed";
      color = "#e53e3e";
      bg_color = "rgba(229, 62, 62, 0.1)";
    }
    else record {
      icon = "UntriggeredIcon";
      label = "Pending";
      color = "#d69e2e";
      bg_color = "rgba(214, 158, 46, 0.1)";
    }

-- What `finished_at` holds until an execution has ended.
abbrev pub zero_date : String
zero_date = "0001-01-01T00:00:00Z"

-- The colour of a `StatusChip`; a status outside of the map has the default.
unfoldable pub chip_color : Option String → String
chip_color status =
    if or_text status "" == "success"
    then "success"
    else if or_text status "" == "failed"
    then "error"
    else if or_text status "" == "running"
    then "warning"
    else "default"

module _ {A : Type 0} where
  -- A chip in a tooltip with the same text.
  abbrev pub chip : String → String → String → String → Element A
  chip icon label color bg_color = el "Tooltip" (is "title" label ∷ []) (
      kids (
        slot "icon" (bare icon) (
          leaf "Chip" (
            is "label" label
            ∷ is "size" "small"
            ∷ is "backgroundColor" bg_color
            ∷ is "color" color
            ∷ []))
        ∷ []))

  -- `StatusField`, from the status of the record
  unfoldable pub status_field : Option (Option String) → Option (Element A)
  unfolding get_status_config
  status_field none = none
  status_field (some status) =
      let config = get_status_config status in
      some (chip config.icon config.label config.color config.bg_color)

  -- `EnabledField`, from the `disabled` of the record
  unfoldable pub enabled_field : Option Bool → Option (Element A)
  enabled_field none = none
  enabled_field (some disabled) = some (
      if disabled
      then chip "CancelIcon" "Disabled" "#e53e3e" "rgba(229, 62, 62, 0.1)"
      else chip "CheckCircleIcon" "Enabled" "#38a169" "rgba(56, 161, 105, 0.1)")

  -- An icon in a tooltip.
  abbrev tip : String → String → String → Element A
  tip title icon color =
      el "Tooltip" (is "title" title ∷ []) (kids (leaf icon (is "color" color ∷ []) ∷ []))

  -- `SuccessField`, from `finished_at` and `success` of the record
  unfoldable pub success_field : Option (Option String × Bool) → Element A
  success_field none = tip "Failed" "ErrorIcon" "error"
  success_field (some (finished_at, success)) =
      if or_text finished_at "" == zero_date
      then tip "Running" "HourglassEmptyIcon" "info"
      else if success
      then tip "Success" "CheckCircleIcon" "success"
      else tip "Failed" "ErrorIcon" "error"

  -- `StatusChip`, from the status of the record
  unfoldable pub status_chip : Option (Option String) → Option (Element A)
  unfolding chip_color
  status_chip none = none
  status_chip (some status) = some (
      leaf "Chip" (
        is "label" (or_text status "unknown")
        ∷ is "color" (chip_color status)
        ∷ is "size" "small"
        ∷ []))

  -- `TagsField`, from the entries of `Tags`
  unfoldable pub tags_field : Option (Option (List (String × String))) → Option (Element A)
  tags_field none = none
  tags_field (some none) = none
  tags_field (some (some tags)) = some (
      el "Box" [] (
        each
          (λ tag. leaf "Chip" (is "label" (glue tag.0 (glue ": " tag.1)) ∷ is "size" "small" ∷ []))
          tags))

-- The values of a record's fields that `ZeroDateField` tests and writes; `none` is `null`.
abbrev pub Fields : Type 0
Fields = List (String × Option String)

-- What `ZeroDateField` does to the record that it is given, if it is given one and a source.
unfoldable pub clear_zero_date : Option Fields → Option String → Option Fields
clear_zero_date none source = none
clear_zero_date (some fields) none = some fields
clear_zero_date (some fields) (some source) = some (elim (get fields source) [
  | none ↦ fields
  | some value ↦ if or_text value "" == zero_date then put fields source none else fields
])
