-- ===== src/Jobs/Show.antt =====
-- `dkron/ui/src/jobs/JobShow.tsx`: the page of a job as a tree of elements, without its styling. A
-- component of a package, or one that is modelled elsewhere, is an element of its name.
use Prim.Native.String.{◌++◌ as glue}
use phan_tan_dkron_giuaky.Common.{
  true, false, Option, some, none, List, [], ◌∷◌, String, if◌then◌else◌, Element, Attr, el, prop,
  said, kids, box, leaf, bare, is, flag, slot, bool,
}
use phan_tan_dkron_giuaky.Diagram.Defs.{or_text, truthy}
use phan_tan_dkron_giuaky.Jobs.Fields.{status_chip}

-- The fields of a job that the header reads.
pub record JobRecord : Type 0 where
  pub name : String
  pub displayname : Option String
  pub schedule : Option String
  pub timezone : Option String
  pub status : Option String

-- `{record.timezone && `(${record.timezone})`}`
unfoldable pub timezone_text : Option String → String
timezone_text none = ""
timezone_text (some z) = if truthy z then glue "(" (glue z ")") else ""

module _ {A : Type 0} where
  -- `{data}` stands as its name.
  unfoldable pub job_show_actions : Element A
  job_show_actions =
      box "TopToolbar"
        (bare "RunButton" ∷ bare "ToggleButton" ∷ leaf "EditButton" (is "record" "data" ∷ []) ∷ [])

  unfoldable pub section_header : String → String → Element A
  section_header icon title = box "Box" (
      box "Box" (leaf icon (is "fontSize" "small" ∷ []) ∷ [])
      ∷ el "Typography" (is "variant" "h6" ∷ []) (kids (said title ∷ []))
      ∷ [])

  abbrev maybe : Option (Element A) → List (Element A)
  maybe none = []
  maybe (some e) = e ∷ []

  unfoldable pub job_header : Option JobRecord → Option (Element A)
  unfolding timezone_text
  job_header none = none
  job_header (some job) = some (
      box "Box" (
        box "Box" (
          box "Box" (bare "JobIcon" ∷ [])
          ∷ box "Box" (
              el "Typography" (is "variant" "h5" ∷ [])
                (kids (said (or_text job.displayname job.name) ∷ []))
              ∷ el "Typography" (is "variant" "body2" ∷ []) (
                  kids (
                    said (or_text job.schedule "")
                    ∷ said " "
                    ∷ said (timezone_text job.timezone)
                    ∷ []))
              ∷ [])
          ∷ box "Box" (maybe (status_chip (some job.status)))
          ∷ [])
        ∷ []))

  -- `<Labeled label={label}>…</Labeled>`
  abbrev labeled : String → Element A → Element A
  labeled label e = el "Labeled" (is "label" label ∷ []) (kids (e ∷ []))

  -- A field of a package: its component, its source and its other properties.
  abbrev field : String → String → List (Attr A) → Element A
  field tag source attrs = leaf tag (is "source" source ∷ attrs)

  abbrev date_field : String → String → Element A
  date_field source empty = field "DateField" source (flag "showTime" ∷ is "emptyText" empty ∷ [])

  unfoldable pub field_group : List (Element A) → Element A
  field_group children = box "Box" children

  unfoldable pub styled_json_field : String → Option String → Element A
  styled_json_field source label = box "Box" (
      labeled (or_text label source) (
        field "JsonField" source (
          prop "collapsed" (bool false)
          ∷ prop "enableClipboard" (bool true)
          ∷ prop "displayDataTypes" (bool false)
          ∷ []))
      ∷ [])

  -- A card with a heading.
  abbrev section_card : String → String → List (Element A) → Element A
  section_card icon title children =
      box "Card" (box "CardContent" (section_header icon title ∷ children) ∷ [])

  unfoldable pub schedule_card : Element A
  unfolding section_header field_group
  schedule_card = section_card "ScheduleIcon" "Schedule Information" (
      field_group (
        labeled "Name" (field "TextField" "name" [])
        ∷ labeled "Display Name" (field "TextField" "displayname" (is "emptyText" "-" ∷ []))
        ∷ labeled "Timezone" (field "TextField" "timezone" (is "emptyText" "UTC" ∷ []))
        ∷ labeled "Schedule" (field "TextField" "schedule" [])
        ∷ labeled "Next Run" (field "DateField" "next" (flag "showTime" ∷ []))
        ∷ labeled "Status" (bare "StatusChip")
        ∷ [])
      ∷ [])

  unfoldable pub history_card : Element A
  unfolding section_header field_group
  history_card = section_card "PlaylistPlayIcon" "Execution History" (
      field_group (
        labeled "Last Success" (date_field "last_success" "Never")
        ∷ labeled "Last Error" (date_field "last_error" "Never")
        ∷ labeled "Success Count" (field "NumberField" "success_count" [])
        ∷ labeled "Error Count" (field "NumberField" "error_count" [])
        ∷ labeled "Retries" (field "NumberField" "retries" [])
        ∷ labeled "Concurrency" (field "TextField" "concurrency" [])
        ∷ [])
      ∷ [])

  unfoldable pub configuration_card : Element A
  unfolding section_header field_group styled_json_field
  configuration_card = section_card "SettingsIcon" "Configuration" (
      field_group (
        labeled "Ephemeral" (field "BooleanField" "ephemeral" [])
        ∷ labeled "Disabled" (field "BooleanField" "disabled" [])
        ∷ labeled "Starts At" (date_field "starts_at" "Not set")
        ∷ labeled "Expires At" (date_field "expires_at" "Not set")
        ∷ labeled "Executor" (field "TextField" "executor" [])
        ∷ labeled "Parent Job" (field "TextField" "parent_job" (is "emptyText" "None" ∷ []))
        ∷ [])
      ∷ styled_json_field "executor_config" (some "Executor Config")
      ∷ styled_json_field "tags" (some "Tags")
      ∷ styled_json_field "processors" (some "Processors")
      ∷ styled_json_field "metadata" (some "Metadata")
      ∷ [])

  abbrev labeled_field : String → String → String → List (Attr A) → Element A
  labeled_field tag source label attrs = field tag source (is "label" label ∷ attrs)

  abbrev unsortable : Attr A
  unsortable = prop "sortable" (bool false)

  unfoldable pub executions_table : Element A
  executions_table = slot "expand" (bare "SpecialOutputPanel") (
      el "Datagrid" (is "rowClick" "expand" ∷ prop "isRowSelectable" (bool false) ∷ []) (
        kids (
          labeled_field "TextField" "id" "ID" []
          ∷ labeled_field "TextField" "group" "Group" (unsortable ∷ [])
          ∷ labeled_field "DateField" "started_at" "Started" (flag "showTime" ∷ [])
          ∷ labeled_field "ZeroDateField" "finished_at" "Finished" (flag "showTime" ∷ [])
          ∷ labeled_field "TextField" "node_name" "Node" (unsortable ∷ [])
          ∷ bare "SuccessField"
          ∷ labeled_field "NumberField" "attempt" "Attempt" []
          ∷ [])))

  -- A tab with its icon; the first has no path of its own.
  abbrev tab : String → List (Attr A) → String → List (Element A) → Element A
  tab label path icon children =
      slot "icon" (bare icon) (el "Tab" (is "label" label ∷ path) (kids children))

  unfoldable pub job_show : Element A
  unfolding job_show_actions schedule_card history_card configuration_card executions_table
  job_show = slot "actions" job_show_actions (
      box "Show" (
        bare "JobHeader"
        ∷ box "TabbedShowLayout" (
            tab "Summary" [] "JobIcon" (schedule_card ∷ history_card ∷ configuration_card ∷ [])
            ∷ tab "Executions" (is "path" "executions" ∷ []) "PlaylistPlayIcon" (
                box "Card" (
                  box "CardContent" (
                    el "ReferenceManyField"
                      (is "reference" "executions" ∷ is "target" "jobs" ∷ is "label" "" ∷ [])
                      (kids (executions_table ∷ []))
                    ∷ [])
                  ∷ [])
                ∷ [])
            ∷ tab "Dependencies" (is "path" "dependencies" ∷ []) "AccountTreeIcon"
                (bare "JobDependencyDiagram" ∷ [])
            ∷ [])
        ∷ []))
