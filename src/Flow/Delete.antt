-- ===== src/Flow/Delete.antt =====
-- config_flow.py, `RfClonerOptionsFlow`: deleting a command, and how the steps of a command find it.
use esphome_rf_cloner.Base.{
  ℤ, String, Bool, true, false, Option, none, some, [], ◌∷◌, string_eq, int_eq,
}
use esphome_rf_cloner.Base.Dict.{Dict, lookup}
use esphome_rf_cloner.Python.Result.{Result, ok, err, is_home_assistant_error}
use esphome_rf_cloner.Python.Exec.{Exec}
use esphome_rf_cloner.Python.Value.{Value}
use esphome_rf_cloner.Host.{Host}
use esphome_rf_cloner.Registry.{EntityRegistry}
use esphome_rf_cloner.Devices.{DeviceRegistry}
use esphome_rf_cloner.Models.CommandInfo.{CommandInfo}
use esphome_rf_cloner.Models.BridgeStatus.{BridgeStatus, by_id, accepts_mutations}
use esphome_rf_cloner.Coordinator
use esphome_rf_cloner.Runtime.{RfClonerRuntimeData, World, on_host}
use esphome_rf_cloner.Flow.{FlowResult, show_form, aborts, Strings}

abbrev pub loaded_of :
    {H : Host} → Option (RfClonerRuntimeData H) → Option (RfClonerRuntimeData H × BridgeStatus)
loaded_of none = none
loaded_of {H} (some runtime) =
    elim runtime.status as (λ _. Option (RfClonerRuntimeData H × BridgeStatus)) [
      | none ↦ none
      | some status ↦ some (runtime, status)
    ]

module _ (H : Host) (R : EntityRegistry) (D : DeviceRegistry) (S : Strings) where
  abbrev Run : Type 0
  Run = Exec (World H R D) FlowResult

  abbrev confirm_form : CommandInfo → FlowResult
  confirm_form command = show_form "confirm_delete" [] [] (("name", command.name) ∷ [])

  abbrev deleted_with : CommandInfo → Result (Unit {0}) → Result FlowResult
  deleted_with command (ok _) = ok (aborts "command_deleted" (("name", command.name) ∷ []))
  deleted_with command (err e) = elim (is_home_assistant_error e) [
    | true ↦ ok (aborts "delete_failed" (("detail", S.describe e) ∷ []))
    | false ↦ err e
  ]

  abbrev pub delete_if : Bool → RfClonerRuntimeData H → ℤ → CommandInfo → Run
  delete_if false runtime command_id command w = (ok (aborts "not_writable" []), w)
  delete_if true runtime command_id command w =
      let transport = runtime.transport in
      let (r, w') = on_host (Coordinator.async_delete H transport command_id command.name) w in
      (deleted_with command r, w')

  abbrev pub confirmed :
      Option (Dict String Value) → RfClonerRuntimeData H → BridgeStatus → ℤ → CommandInfo → Run
  confirmed none runtime status command_id command w = (ok (confirm_form command), w)
  confirmed (some fields) runtime status command_id command w =
      delete_if (accepts_mutations status) runtime command_id command w

  -- What both steps begin with: the bridge's data, the chosen command's id, and the command.
  abbrev pub found :
      (RfClonerRuntimeData H → BridgeStatus → ℤ → CommandInfo → Run)
      → RfClonerRuntimeData H
      → BridgeStatus
      → ℤ
      → Option CommandInfo
      → Run
  found step runtime status command_id none w = (ok (aborts "unknown_command" []), w)
  found step runtime status command_id (some command) w = step runtime status command_id command w

  abbrev pub opened :
      (RfClonerRuntimeData H → BridgeStatus → ℤ → CommandInfo → Run)
      → Option (RfClonerRuntimeData H × BridgeStatus)
      → Option ℤ
      → Run
  opened step none command_id w = (ok (aborts "not_loaded" []), w)
  opened step (some loaded) none w = (ok (aborts "not_loaded" []), w)
  opened step (some (runtime, status)) (some command_id) w =
      found step runtime status command_id (lookup command_id (by_id status)) w

  -- `async_step_confirm_delete`
  unfoldable pub async_step_confirm_delete : Option ℤ → Option (Dict String Value) → Run
  async_step_confirm_delete chosen user_input w =
      opened (confirmed user_input) (loaded_of w.runtime) chosen w
