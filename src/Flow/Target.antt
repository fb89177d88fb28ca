-- ===== src/Flow/Target.antt =====
-- config_flow.py, `TargetSubentryFlow`: creating an RF target, and changing one.
use Prim.Native.String.{◌++◌}
use esphome_rf_cloner.Base.{
  String, Bool, true, false, not, ◌&&◌, Option, none, some, List, [], ◌∷◌, any, if◌then◌else◌, ◌==◌,
  string_eq, option_string_eq,
}
use esphome_rf_cloner.Base.Dict.{Dict, lookup, insert, values}
use esphome_rf_cloner.Python.Result.{Result, ok, err}
use esphome_rf_cloner.Python.Exec.{Exec}
use esphome_rf_cloner.Python.Text.{is_empty}
use esphome_rf_cloner.Python.Value.{Value, null, str}
use esphome_rf_cloner.Const.{
  conf_name, conf_target_id, conf_target_type, conf_area_id, target_type_generic,
}
use esphome_rf_cloner.Entry.{ConfigSubentry}
use esphome_rf_cloner.Host.{Host}
use esphome_rf_cloner.Registry.{EntityRegistry}
use esphome_rf_cloner.Devices.{DeviceRegistry, async_target_device_area, async_set_target_area}
use esphome_rf_cloner.Targets.{RfTarget, from_subentry, targets, validate_target_type}
use esphome_rf_cloner.Runtime.{RfClonerRuntimeData, World, entry_of, on_reconciler}
use esphome_rf_cloner.Flow.{
  Field, FlowResult, show_form, aborts, creates_entry, Strings, text_selector, area_selector,
  target_type_selector, stripped,
}

-- `entry.subentries.get(subentry_id)`
unfoldable pub subentry_of : String → List ConfigSubentry → Option ConfigSubentry
subentry_of id [] = none
subentry_of id (subentry ∷ rest) =
    if subentry.subentry_id == id then some subentry else subentry_of id rest

-- The area that was chosen.
abbrev pub chosen_area : Option Value → Option String
chosen_area (some (str area)) = some area
chosen_area _ = none

-- A text or `None`.
abbrev pub text_or_null : Option String → Value
text_or_null none = null
text_or_null (some s) = str s

-- `f"{entry.unique_id}_target_{target_id}"`
abbrev pub target_unique_id : Option String → String → String
target_unique_id none target_id = "None_target_" ++ target_id
target_unique_id (some unique_id) target_id = unique_id ++ "_target_" ++ target_id

-- `async_update_subentry`
unfoldable pub update_subentry :
    String → String → Dict String Value → List ConfigSubentry → List ConfigSubentry
update_subentry id title content [] = []
update_subentry id title content (subentry ∷ rest) =
    (if subentry.subentry_id == id
      then record subentry { title = title; content = content }
      else subentry)
    ∷ update_subentry id title content rest

-- The data of a target's subentry, as the flow that creates it writes them.
abbrev pub target_data : String → Dict String Value → Dict String Value
target_data target_id fields =
    (conf_target_id, str target_id)
    ∷ (conf_target_type, str (validate_target_type (lookup conf_target_type fields)))
    ∷ (conf_area_id, text_or_null (chosen_area (lookup conf_area_id fields)))
    ∷ []

module _ (H : Host) (R : EntityRegistry) (D : DeviceRegistry) (S : Strings) where
  abbrev Run : Type 0
  Run = Exec (World H R D) FlowResult

  abbrev or_stored : Option String → Option String → Option String
  or_stored stored none = stored
  or_stored stored (some area) = some area

  abbrev area_in : Option (RfClonerRuntimeData H) → World H R D → RfTarget → Option String
  area_in none w target = target.area_id
  area_in (some runtime) w target =
      or_stored target.area_id
        (async_target_device_area D (entry_of w) runtime.bridge_id target w.devices)

  -- `_current_area`, of a target that there is
  unfoldable pub current_area : World H R D → RfTarget → Option String
  current_area w target = area_in w.runtime w target

  abbrev default_text : Option String → Option Value
  default_text none = none
  default_text (some s) = some (str s)

  abbrev fields_of : Option Value → String → Option Value → List Field
  fields_of name target_type area =
      record { key = conf_name; required = true; default = name; selector = text_selector }
      ∷ record {
        key = conf_target_type;
        required = true;
        default = some (str target_type);
        selector = target_type_selector;
      }
      ∷ record { key = conf_area_id; required = false; default = area; selector = area_selector }
      ∷ []

  -- `_schema`
  abbrev schema : World H R D → Option RfTarget → List Field
  schema w none = fields_of none target_type_generic none
  schema w (some target) =
      fields_of (some (str target.name)) target.target_type (default_text (current_area w target))

  abbrev user_form : World H R D → Dict String String → FlowResult
  user_form w errors = show_form "user" (schema w none) errors []

  -- Some target has the name, but for case.
  unfoldable pub is_taken : String → List RfTarget → Bool
  is_taken name known = any (λ (t : RfTarget). S.casefold t.name == S.casefold name) known

  -- What is wrong with the name.
  abbrev pub problem_with : String → Bool → Option String
  problem_with name clash =
      if is_empty name then some "name_empty" else if clash then some "target_name_taken" else none

  abbrev pub created :
      String → Dict String Value → String → Option String → World H R D → FlowResult
  created fresh fields name (some problem) w = user_form w ((conf_name, problem) ∷ [])
  created fresh fields name none w =
      creates_entry name (target_data fresh fields)
        (some (target_unique_id (entry_of w).unique_id fresh))

  abbrev pub submitted : String → Dict String Value → Result String → Run
  submitted fresh fields (err e) w = (err e, w)
  submitted fresh fields (ok name) w =
      let problem = problem_with name (is_taken name (values (targets (entry_of w)))) in
      (ok (created fresh fields name problem w), w)

  -- `async_step_user`, which gives a new target the id `fresh`
  unfoldable pub async_step_user : String → Option (Dict String Value) → Run
  unfolding is_taken
  async_step_user fresh none w = (ok (user_form w []), w)
  async_step_user fresh (some fields) w = submitted fresh fields (stripped H fields conf_name) w

  -- Another target has the name, but for case.
  unfoldable pub is_taken_beside : RfTarget → String → List RfTarget → Bool
  is_taken_beside target name known =
      any
        (λ (other : RfTarget).
          S.casefold other.name == S.casefold name && not (other.target_id == target.target_id))
        known

  abbrev pub changed_content : ConfigSubentry → Dict String Value → Dict String Value
  changed_content subentry fields =
      insert conf_area_id (text_or_null (chosen_area (lookup conf_area_id fields))) (
        insert conf_target_type (str (validate_target_type (lookup conf_target_type fields)))
          subentry.content)

  abbrev pub update_target : ConfigSubentry → String → Dict String Value → World H R D → World H R D
  update_target subentry name fields = on_reconciler (λ m. record m {
    entry = record m.entry {
      subentries =
          update_subentry subentry.subentry_id name (changed_content subentry fields)
            m.entry.subentries;
    };
  })

  -- The device is moved only where the choice is another area than the one that it is in.
  abbrev pub move_if :
      Option (RfClonerRuntimeData H)
      → RfTarget
      → Option String
      → Option String
      → World H R D
      → World H R D
  move_if none target chosen current w = w
  move_if (some runtime) target chosen current w = if chosen == current then w else record w {
    devices = async_set_target_area D (entry_of w) runtime.bridge_id target chosen w.devices;
  }

  abbrev change_form : World H R D → RfTarget → Dict String String → FlowResult
  change_form w target errors = show_form "reconfigure" (schema w (some target)) errors []

  abbrev pub changed : ConfigSubentry → RfTarget → Dict String Value → String → Option String → Run
  changed subentry target fields name (some problem) w =
      (ok (change_form w target ((conf_name, problem) ∷ [])), w)
  changed subentry target fields name none w = (
    ok (aborts "reconfigure_successful" []),
    move_if w.runtime target (chosen_area (lookup conf_area_id fields)) (current_area w target)
        (update_target subentry name fields w),
  )

  abbrev pub resubmitted : ConfigSubentry → RfTarget → Dict String Value → Result String → Run
  resubmitted subentry target fields (err e) w = (err e, w)
  resubmitted subentry target fields (ok name) w =
      let clash = is_taken_beside target name (values (targets (entry_of w))) in
      changed subentry target fields name (problem_with name clash) w

  abbrev pub reconfigured : Option (Dict String Value) → ConfigSubentry → Option RfTarget → Run
  reconfigured user_input subentry none w = (ok (aborts "unknown_target" []), w)
  reconfigured none subentry (some target) w = (ok (change_form w target []), w)
  reconfigured (some fields) subentry (some target) w =
      resubmitted subentry target fields (stripped H fields conf_name) w

  abbrev pub reconfigure_at : Option (Dict String Value) → Option ConfigSubentry → Run
  reconfigure_at user_input none w = (ok (aborts "unknown_target" []), w)
  reconfigure_at user_input (some subentry) w =
      reconfigured user_input subentry (from_subentry subentry) w

  -- `async_step_reconfigure`, of the subentry with this id
  unfoldable pub async_step_reconfigure : String → Option (Dict String Value) → Run
  unfolding subentry_of from_subentry is_taken_beside update_subentry
  async_step_reconfigure id user_input w =
      reconfigure_at user_input (subentry_of id (entry_of w).subentries) w
