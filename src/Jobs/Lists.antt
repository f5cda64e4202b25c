-- ===== src/Jobs/Lists.antt =====
-- `dkron/ui/src/jobs/JobList.tsx` and `dkron/ui/src/executions/BusyList.tsx`: the list of jobs and the
-- list of running jobs, as trees of elements without their styling.
use phan_tan_dkron_giuaky.Common.{
  false, Option, List, [], ◌∷◌, String, Element, Attr, el, prop, kids, box, leaf, bare, is, flag,
  slot, bool, choices, nums, said,
}
use phan_tan_dkron_giuaky.Diagram.Defs.{or_text}

-- `PREFIX` and `classes`
abbrev pub hidden_on_small_screens : String
hidden_on_small_screens = "JobList-hiddenOnSmallScreens"

module _ {A : Type 0} where
  abbrev field : String → String → List (Attr A) → Element A
  field tag source attrs = leaf tag (is "source" source ∷ attrs)

  abbrev unsortable : Attr A
  unsortable = prop "sortable" (bool false)

  unfoldable pub job_filter : Element A
  job_filter = box "Filter" (
      field "TextInput" "q" (is "label" "Search" ∷ flag "alwaysOn" ∷ [])
      ∷ field "SelectInput" "status" (
          prop "choices" (
            choices (
              ("success", "Success")
              ∷ ("failed", "Failed")
              ∷ ("untriggered", "Waiting to Run")
              ∷ []))
          ∷ [])
      ∷ field "BooleanInput" "disabled" []
      ∷ [])

  unfoldable pub job_bulk_action_buttons : Element A
  job_bulk_action_buttons =
      box "Fragment" (bare "BulkRunButton" ∷ bare "BulkToggleButton" ∷ bare "BulkDeleteButton" ∷ [])

  unfoldable pub job_pagination : Element A
  job_pagination =
      leaf "Pagination" (prop "rowsPerPageOptions" (nums (5 ∷ 10 ∷ 25 ∷ 50 ∷ 100 ∷ [])) ∷ [])

  -- `ListHeader` of both lists: the icon, the title and the text below it
  unfoldable pub list_header : String → String → String → Element A
  list_header icon title subtitle = box "Box" (
      box "Box" (bare icon ∷ [])
      ∷ box "Box" (
          el "Typography" (is "variant" "h5" ∷ []) (kids (said title ∷ []))
          ∷ el "Typography" (is "variant" "body2" ∷ []) (kids (said subtitle ∷ []))
          ∷ [])
      ∷ [])

  -- The columns that a small screen leaves out.
  abbrev wide_only : List (Attr A)
  wide_only =
      is "cellClassName" hidden_on_small_screens ∷ is "headerClassName" hidden_on_small_screens ∷ []

  unfoldable pub job_columns : List (Element A)
  job_columns =
      field "TextField" "id" []
      ∷ field "TextField" "displayname" (is "label" "Display name" ∷ [])
      ∷ field "TextField" "timezone" (unsortable ∷ wide_only)
      ∷ field "TextField" "schedule" []
      ∷ field "NumberField" "success_count" wide_only
      ∷ field "NumberField" "error_count" wide_only
      ∷ field "DateField" "last_success" (flag "showTime" ∷ [])
      ∷ field "DateField" "last_error" (flag "showTime" ∷ [])
      ∷ leaf "EnabledField" (is "label" "Enabled" ∷ [])
      ∷ field "NumberField" "retries" (unsortable ∷ [])
      ∷ bare "StatusField"
      ∷ field "DateField" "next" (flag "showTime" ∷ [])
      ∷ bare "EditButton"
      ∷ []

  unfoldable pub job_list : Element A
  unfolding job_filter job_bulk_action_buttons job_pagination list_header job_columns
  job_list = box "Box" (
      list_header "UpdateIcon" "Scheduled Jobs" "Manage your distributed cron jobs"
      ∷ slot "filters" job_filter (
          slot "pagination" job_pagination (
            box "List" (
              slot "bulkActionButtons" job_bulk_action_buttons
                (el "StyledDatagrid" (is "rowClick" "show" ∷ []) (kids job_columns))
              ∷ [])))
      ∷ [])

  -- `OutputPanel`, from the output of the record, `none` where either is missing
  unfoldable pub output_panel : Option String → Element A
  output_panel output =
      el "div" (is "className" "execution-output" ∷ [])
        (kids (said (or_text output "Empty output") ∷ []))

  unfoldable pub busy_list : Element A
  unfolding list_header
  busy_list = box "Box" (
      list_header "PlayCircleOutlineIcon" "Running Jobs"
        "Jobs currently being executed across the cluster"
      ∷ el "List" (prop "pagination" (bool false) ∷ []) (
          kids (
            slot "expand" (bare "OutputPanel") (
              el "Datagrid" (is "rowClick" "expand" ∷ prop "isRowSelectable" (bool false) ∷ []) (
                kids (
                  field "TextField" "id" (unsortable ∷ [])
                  ∷ field "TextField" "job_name" (unsortable ∷ [])
                  ∷ field "TextField" "node_name" (unsortable ∷ [])
                  ∷ field "DateField" "started_at" (unsortable ∷ flag "showTime" ∷ [])
                  ∷ [])))
            ∷ []))
      ∷ [])
