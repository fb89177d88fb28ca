-- ===== src/Flow/Command.antt =====
-- config_flow.py, `RfClonerOptionsFlow`: renaming, moving and decorating a command. Its learning
-- steps are those of Flow/Learn.antt, deleting is that of Flow/Delete.antt.
use esphome_rf_cloner.Base.{
  ℤ, String, Bool, true, false, not, Option, none, some, List, [], ◌∷◌, if◌then◌else◌, ◌==◌,
  string_eq, int_eq,
}
use esphome_rf_cloner.Base.Dict.{Dict, lookup}
use esphome_rf_cloner.Python.Result.{Result, ok, err, is_home_assistant_error}
use esphome_rf_cloner.Python.Exec.{Exec}
use esphome_rf_cloner.Python.Text.{is_empty}
use esphome_rf_cloner.Python.Value.{Value, null, bool, str, at, get, as_int, truth}
use esphome_rf_cloner.Const.{conf_command_id, conf_name, conf_target_id, conf_icon}
use esphome_rf_cloner.Entry.{ConfigEntry, with_options}
use esphome_rf_cloner.Host.{Host}
use esphome_rf_cloner.Registry.{EntityRegistry}
use esphome_rf_cloner.Devices.{DeviceRegistry}
use esphome_rf_cloner.Models.CommandInfo.{CommandInfo}
use esphome_rf_cloner.Models.BridgeStatus.{BridgeStatus, by_name, accepts_mutations}
use esphome_rf_cloner.Models.Names.{validate_command_name}
use esphome_rf_cloner.Coordinator
use esphome_rf_cloner.Icons.{suggest_icon}
use esphome_rf_cloner.Targets.{RfTarget, CommandMeta, options_with, meta_for, assigned_target}
use esphome_rf_cloner.Runtime.{RfClonerRuntimeData, World, entry_of, on_host, on_reconciler}
use esphome_rf_cloner.Flow.{
  FlowResult, show_form, show_menu, aborts, Strings, text_selector, icon_selector, boolean,
  unassigned, target_selector, command_selector, chosen_target, or_none, stripped,
  stripped_or_empty,
}
use esphome_rf_cloner.Flow.Learn.{type_of, id_of}
use esphome_rf_cloner.Flow.Delete.{loaded_of, opened, async_step_confirm_delete}

-- What `by_name` finds under a name is another command.
abbrev pub taken : ℤ → Option CommandInfo → Bool
taken command_id none = false
taken command_id (some command) = not (command.command_id == command_id)

-- How a rename ended: it was refused, it failed, or it was done or was not needed.
pub data Renaming : Type 0 where
  refused failed done : Renaming

module _ (H : Host) (R : EntityRegistry) (D : DeviceRegistry) (S : Strings) where
  abbrev Run : Type 0
  Run = Exec (World H R D) FlowResult

  abbrev or_unassigned : Option String → String
  or_unassigned none = unassigned
  or_unassigned (some target_id) = target_id

  abbrev suggested : CommandInfo → Option RfTarget → Option String → String
  suggested command target none = suggest_icon S.lower command.name (type_of target)
  suggested command target (some icon) =
      if is_empty icon then suggest_icon S.lower command.name (type_of target) else icon

  abbrev pub command_form : ConfigEntry → CommandInfo → Dict String String → FlowResult
  command_form entry command errors =
      let target = assigned_target entry command.command_id in
      let icon = suggested command target (meta_for entry command.command_id).icon in
      show_form "command"
        (record {
          key = conf_name;
          required = true;
          default = some (str command.name);
          selector = text_selector;
        }
          ∷ record {
            key = conf_target_id;
            required = false;
            default = some (str (or_unassigned (id_of target)));
            selector = target_selector S entry;
          }
          ∷ record {
            key = conf_icon;
            required = false;
            default = some (str icon);
            selector = icon_selector;
          }
          ∷ record {
            key = "delete";
            required = false;
            default = some (bool false);
            selector = boolean;
          }
          ∷ [])
        errors (("name", command.name) ∷ [])

  -- `except HomeAssistantError`, of the rename
  abbrev pub renamed_with : Result (Unit {0}) → Result Renaming
  renamed_with (ok _) = ok done
  renamed_with (err e) = elim (is_home_assistant_error e) [ true ↦ ok failed | false ↦ err e ]

  -- The rename, of a bridge that accepts mutations or does not.
  abbrev pub rename_on : RfClonerRuntimeData H → ℤ → String → Bool → Exec (World H R D) Renaming
  rename_on runtime command_id name false w = (ok refused, w)
  rename_on runtime command_id name true w =
      let (r, w') = on_host (Coordinator.async_rename H runtime.transport command_id name) w in
      (renamed_with r, w')

  -- The rename, where the name is another.
  abbrev pub rename_if :
      RfClonerRuntimeData H → BridgeStatus → ℤ → String → Bool → Exec (World H R D) Renaming
  rename_if runtime status command_id name true w = (ok done, w)
  rename_if runtime status command_id name false w =
      rename_on runtime command_id name (accepts_mutations status) w

  -- The metadata that were submitted for the command.
  abbrev pub submitted_meta : Dict String Value → CommandMeta
  submitted_meta fields = record {
    target_id = chosen_target (lookup conf_target_id fields);
    icon = or_none (stripped_or_empty H fields conf_icon);
  }

  abbrev pub save : ℤ → CommandMeta → World H R D → World H R D
  save command_id meta = on_reconciler (λ m. record m {
    entry = with_options m.entry (options_with m.entry ((command_id, meta) ∷ []));
  })

  abbrev pub settled :
      ℤ
      → CommandInfo
      → Dict String Value
      → Result Renaming
      → World H R D
      → Result FlowResult × World H R D
  settled command_id command fields (err e) w = (err e, w)
  settled command_id command fields (ok refused) w = (ok (aborts "not_writable" []), w)
  settled command_id command fields (ok failed) w =
      (ok (command_form (entry_of w) command (("base", "rename_failed") ∷ [])), w)
  settled command_id command fields (ok done) w =
      (ok (aborts "command_saved" []), save command_id (submitted_meta fields) w)

  abbrev pub rename_and_save :
      RfClonerRuntimeData H → BridgeStatus → ℤ → CommandInfo → Dict String Value → String → Run
  rename_and_save runtime status command_id command fields name w =
      let (r, w') = rename_if runtime status command_id name (name == command.name) w in
      settled command_id command fields r w'

  abbrev pub free_if :
      RfClonerRuntimeData H
      → BridgeStatus
      → ℤ
      → CommandInfo
      → Dict String Value
      → String
      → Bool
      → Run
  free_if runtime status command_id command fields name true w =
      (ok (command_form (entry_of w) command ((conf_name, "name_taken") ∷ [])), w)
  free_if runtime status command_id command fields name false w =
      rename_and_save runtime status command_id command fields name w

  -- A name that was submitted, with its problem if it has one.
  abbrev pub checked :
      RfClonerRuntimeData H
      → BridgeStatus
      → ℤ
      → CommandInfo
      → Dict String Value
      → String
      → Option String
      → Run
  checked runtime status command_id command fields name (some problem) w =
      (ok (command_form (entry_of w) command ((conf_name, problem) ∷ [])), w)
  checked runtime status command_id command fields name none w =
      free_if runtime status command_id command fields name
        (taken command_id (lookup name (by_name status))) w

  abbrev pub submitted :
      RfClonerRuntimeData H
      → BridgeStatus
      → ℤ
      → CommandInfo
      → Dict String Value
      → Result String
      → Run
  submitted runtime status command_id command fields (err e) w = (err e, w)
  submitted runtime status command_id command fields (ok name) w =
      checked runtime status command_id command fields name (validate_command_name name) w

  abbrev pub changed_or_deleted :
      Dict String Value → RfClonerRuntimeData H → BridgeStatus → ℤ → CommandInfo → Bool → Run
  changed_or_deleted fields runtime status command_id command true w =
      async_step_confirm_delete H R D S (some command_id) none w
  changed_or_deleted fields runtime status command_id command false w =
      submitted runtime status command_id command fields (stripped H fields conf_name) w

  abbrev pub edited :
      Option (Dict String Value) → RfClonerRuntimeData H → BridgeStatus → ℤ → CommandInfo → Run
  edited none runtime status command_id command w = (ok (command_form (entry_of w) command []), w)
  edited (some fields) runtime status command_id command w =
      changed_or_deleted fields runtime status command_id command (truth (get fields "delete" null))
        w

  -- `async_step_command`
  unfoldable pub async_step_command : Option ℤ → Option (Dict String Value) → Run
  async_step_command chosen user_input w =
      opened H R D S (edited user_input) (loaded_of w.runtime) chosen w

  -- `async_step_init`
  unfoldable pub async_step_init : Run
  async_step_init w = elim w.runtime [
    | none ↦ (ok (aborts "not_loaded" []), w)
    | some runtime ↦ (ok (show_menu "init" ("learn_command" ∷ "manage_command" ∷ [])), w)
  ]

  -- The state of the flow is the command that was chosen.
  abbrev Chosen : Type 0
  Chosen = Option ℤ × World H R D

  abbrev pick : Result ℤ → Exec Chosen FlowResult
  pick (err e) f = (err e, f)
  pick (ok command_id) (chosen, w) =
      let (r, w') = async_step_command (some command_id) none w in (r, (some command_id, w'))

  abbrev picked_id : Dict String Value → Result ℤ
  picked_id fields = elim (at fields conf_command_id) as (λ _. Result ℤ) [
    | err e ↦ err e
    | ok v ↦ as_int v
  ]

  abbrev offered :
      Option (Dict String Value) → BridgeStatus → List CommandInfo → Exec Chosen FlowResult
  offered user_input status [] f = (ok (aborts "no_commands" []), f)
  offered none status (command ∷ commands) (chosen, w) = (
    ok (
        show_form "manage_command"
          (record {
            key = conf_command_id;
            required = true;
            default = none;
            selector = command_selector S (entry_of w) status;
          }
            ∷ [])
          [] []),
    (chosen, w),
  )
  offered (some fields) status (command ∷ commands) f = pick (picked_id fields) f

  abbrev managed :
      Option (Dict String Value)
      → Option (RfClonerRuntimeData H × BridgeStatus)
      → Exec Chosen FlowResult
  managed user_input none f = (ok (aborts "not_loaded" []), f)
  managed user_input (some (runtime, status)) f = offered user_input status status.commands f

  -- `async_step_manage_command`
  unfoldable pub async_step_manage_command : Option (Dict String Value) → Exec Chosen FlowResult
  unfolding async_step_command
  async_step_manage_command user_input f = managed user_input (loaded_of f.1.runtime) f
