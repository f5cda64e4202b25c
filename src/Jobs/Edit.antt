-- ===== src/Jobs/Edit.antt =====
-- `dkron/ui/src/jobs/JobEdit.tsx`: the form for a job, as the list of its inputs and as a tree of
-- elements.
use phan_tan_dkron_giuaky.Common.{
  Bool, true, false, List, [], ◌∷◌, ◌++◌, String, if◌then◌else◌, Element, Attr, el, prop, box, leaf,
  bare, is, flag, slot, bool, choices, each,
}

-- The components of the inputs. A JSON input is collapsed or not, and copies to the clipboard or not.
pub data Kind : Type 0 where
  text_input : Kind
  boolean_input : Kind
  number_input : Kind
  date_time_input : Kind
  select_input : List (String × String) → Kind
  json_input : (collapsed : Bool) → (enable_clipboard : Bool) → Kind

pub record Input : Type 0 where
  pub kind : Kind
  pub source : String
  pub helper_text : String
  -- `validate={required()}`
  pub required : Bool
  pub disabled : Bool

abbrev plain : Kind → String → String → Input
plain kind source helper_text = record {
  kind = kind;
  source = source;
  helper_text = helper_text;
  required = false;
  disabled = false;
}

abbrev needed : Kind → String → String → Input
needed kind source helper_text = record (plain kind source helper_text) { required = true }

abbrev locked : Kind → String → String → Input
locked kind source helper_text = record (plain kind source helper_text) { disabled = true }

abbrev open_json : Kind
open_json = json_input false true

-- The inputs of `EditForm`, in order.
unfoldable pub edit_inputs : List Input
edit_inputs =
    locked text_input "id" "Job id. Must be unique, it's a copy of name."
    ∷ needed text_input "name" "Job name. Must be unique, acts as the id."
    ∷ plain text_input "displayname"
        "Display name of the job. If present, displayed instead of the name."
    ∷ plain text_input "timezone" "The timezone where the cron expression will be evaluated in."
    ∷ needed text_input "schedule" "Cron expression for the job. When to run the job."
    ∷ locked text_input "owner" "Arbitrary string indicating the owner of the job."
    ∷ plain text_input "owner_email" "Email address to use for notifications."
    ∷ plain text_input "parent_job" "Job id of job that this job is dependent upon."
    ∷ plain boolean_input "ephemeral" "Delete the job after the first successful execution."
    ∷ plain date_time_input "starts_at" "The job will not be executed before this time."
    ∷ plain date_time_input "expires_at" "The job will not be executed after this time."
    ∷ plain (select_input (("allow", "Allow") ∷ ("forbid", "Forbid") ∷ [])) "concurrency"
        "Concurrency policy for this job (allow, forbid)."
    ∷ plain open_json "processors" "Processor plugins to use for this job."
    ∷ plain open_json "tags" "Tags of the target servers to run this job against."
    ∷ plain open_json "metadata" "Job metadata describes the job and allows filtering from the API."
    ∷ needed text_input "executor" "Executor plugin to be used in this job."
    ∷ needed (json_input true false) "executor_config"
        "Configuration arguments for the specific executor."
    ∷ plain boolean_input "disabled" "Is this job disabled?"
    ∷ plain number_input "retries" "Number of times to retry a job that failed an execution."
    ∷ []

unfoldable pub tag_of : Kind → String
tag_of text_input = "TextInput"
tag_of boolean_input = "BooleanInput"
tag_of number_input = "NumberInput"
tag_of date_time_input = "DateTimeInput"
tag_of (select_input cs) = "SelectInput"
tag_of (json_input collapsed enable_clipboard) = "JsonInput"

module _ {A : Type 0} where
  -- The properties that only some inputs have.
  unfoldable pub own_attrs : Kind → List (Attr A)
  own_attrs text_input = []
  own_attrs boolean_input = []
  own_attrs number_input = []
  own_attrs date_time_input = []
  own_attrs (select_input cs) = prop "choices" (choices cs) ∷ []
  own_attrs (json_input collapsed enable_clipboard) =
      prop "collapsed" (bool collapsed)
      ∷ prop "enableClipboard" (bool enable_clipboard)
      ∷ prop "displayDataTypes" (bool false)
      ∷ []

  unfoldable pub input_element : Input → Element A
  unfolding tag_of own_attrs
  input_element i = leaf (tag_of i.kind) (
      is "source" i.source
      ∷ is "helperText" i.helper_text
      ∷ (own_attrs i.kind
          ++ ((if i.required then is "validate" "required" ∷ [] else [])
              ++ (if i.disabled then flag "disabled" ∷ [] else []))))

  unfoldable pub edit_form : Element A
  unfolding edit_inputs input_element
  edit_form = el "SimpleForm" [] (each input_element edit_inputs)

  unfoldable pub job_edit_actions : Element A
  job_edit_actions = box "TopToolbar" (bare "ListButton" ∷ bare "ShowButton" ∷ [])

  unfoldable pub job_create_actions : Element A
  job_create_actions = box "TopToolbar" (bare "ListButton" ∷ [])

  unfoldable pub job_edit : Element A
  unfolding job_edit_actions edit_form
  job_edit = slot "actions" job_edit_actions (box "Edit" (edit_form ∷ []))

  unfoldable pub job_create : Element A
  unfolding job_create_actions edit_form
  job_create = slot "actions" job_create_actions (box "Create" (edit_form ∷ []))
