-- ===== src/Diagnostics.antt =====
-- custom_components/rf_cloner/diagnostics.py: the report of a loaded bridge, as Home Assistant
-- downloads it.
mod Tests
use Prim.Native.String.{◌++◌}
use esphome_rf_cloner.Base.{
  ℤ, pos, String, Bool, true, false, not, Option, none, some, List, [], ◌∷◌, map, length,
}
use esphome_rf_cloner.Base.Dict.{Dict, values}
use esphome_rf_cloner.Python.Decimal.{show_int}
use esphome_rf_cloner.Python.Value.{Value, null, bool, int, str, list, dict, of_list, of_dict}
use esphome_rf_cloner.Entry.{ConfigEntry}
use esphome_rf_cloner.Host.{Host}
use esphome_rf_cloner.Registry.{EntityRegistry}
use esphome_rf_cloner.Devices.{DeviceRegistry}
use esphome_rf_cloner.Models.CommandInfo.{CommandInfo}
use esphome_rf_cloner.Models.BridgeStatus.{BridgeStatus}
use esphome_rf_cloner.Models.ExportedCommand.{ExportedCommand}
use esphome_rf_cloner.Snapshot.{Snapshot}
use esphome_rf_cloner.Targets
use esphome_rf_cloner.Targets.{RfTarget, CommandMeta, targets, command_meta, commands_for_target}
use esphome_rf_cloner.Transport.{BridgeTransport, node_name, available, supports}
use esphome_rf_cloner.Button
use esphome_rf_cloner.Reconcile.{CommandReconciler}
use esphome_rf_cloner.Runtime.{RfClonerRuntimeData, World, entry_of}

abbrev record_value : Dict String Value → Value
record_value fields = dict (of_dict fields)

abbrev list_value : List Value → Value
list_value items = list (of_list items)

abbrev or_null : Option String → Value
or_null none = null
or_null (some s) = str s

abbrev is_some : Option String → Bool
is_some none = false
is_some (some s) = true

-- One target and its commands, without a name or an area.
unfoldable pub target_report : ConfigEntry → RfTarget → Value
unfolding commands_for_target
target_report entry target = record_value (
    ("target_id", str target.target_id)
    ∷ ("type", str target.target_type)
    ∷ ("has_area", bool (is_some target.area_id))
    ∷ (
      "commands",
      list_value (map int (Button.sorted (commands_for_target entry target.target_id))),
    )
    ∷ [])

abbrev meta_report : Dict ℤ CommandMeta → Dict String Value
meta_report [] = []
meta_report ((command_id, meta) ∷ rest) =
    (
      show_int command_id,
      record_value (("assigned", bool (is_some meta.target_id)) ∷ ("icon", or_null meta.icon) ∷ []),
    )
    ∷ meta_report rest

unfoldable pub command_row : CommandInfo → Value
command_row item =
    record_value
      (("id", int item.command_id) ∷ ("name", str item.name) ∷ ("pulses", int item.pulses) ∷ [])

unfoldable pub status_report : Option BridgeStatus → Value
unfolding command_row
status_report none = null
status_report (some status) = record_value (
    ("bridge_id", str status.bridge_id)
    ∷ ("revision", int status.revision)
    ∷ ("next_command_id", int status.next_command_id)
    ∷ ("restore_incomplete", bool status.restore_incomplete)
    ∷ ("read_only", bool status.read_only)
    ∷ ("fault", str status.fault)
    ∷ ("state", str status.state)
    ∷ ("last_result", str status.last_result)
    ∷ ("count", int status.count)
    ∷ ("max_commands", int status.max_commands)
    ∷ ("max_pulses", int status.max_pulses)
    ∷ ("used_bytes", int status.used_bytes)
    ∷ ("capacity_bytes", int status.capacity_bytes)
    ∷ ("commands", list_value (map command_row status.commands))
    ∷ [])

-- A command of the replica: its waveform is only counted.
unfoldable pub exported_row : ExportedCommand → Value
exported_row command = record_value (
    ("id", int command.command_id)
    ∷ ("name", str command.name)
    ∷ ("pulses", int (pos (length command.timings)))
    ∷ [])

module _ (H : Host) where
  unfoldable pub snapshot_report : Option (Snapshot H.Datetime) → Value
  unfolding exported_row
  snapshot_report none = null
  snapshot_report (some snapshot) = record_value (
      ("bridge_id", str snapshot.bridge_id)
      ∷ ("revision", int snapshot.revision)
      ∷ ("next_command_id", int snapshot.next_command_id)
      ∷ ("captured_at", str (H.isoformat snapshot.captured_at))
      ∷ ("commands", list_value (map exported_row snapshot.commands))
      ∷ [])

  unfoldable pub transport_report : BridgeTransport → H.State → Value
  transport_report t s = record_value (
      ("node_name", or_null (node_name H t s))
      ∷ ("available", bool (available H t s))
      ∷ ("supports_delete_id", bool (supports H t "delete_id" s))
      ∷ [])

  unfoldable pub entry_report : ConfigEntry → RfClonerRuntimeData H → Value
  entry_report entry runtime = record_value (
      ("unique_id", or_null entry.unique_id)
      ∷ ("esphome_entry_id", str runtime.bound_to.0)
      ∷ ("action_prefix", str runtime.bound_to.1)
      ∷ ("version", str (show_int entry.version ++ "." ++ show_int entry.minor_version))
      ∷ [])

  -- `async_get_config_entry_diagnostics`, of a bridge whose runtime data are these
  unfoldable pub async_get_config_entry_diagnostics :
      {R : EntityRegistry} {D : DeviceRegistry}
      → RfClonerRuntimeData H
      → World H R D
      → Dict String Value
  unfolding entry_report target_report transport_report status_report snapshot_report
  async_get_config_entry_diagnostics runtime w =
      let entry = entry_of w in
      (("entry", entry_report entry runtime)
        ∷ ("targets", list_value (map (target_report entry) (values (targets entry))))
        ∷ ("command_meta", record_value (meta_report (Targets.sorted (command_meta entry))))
        ∷ ("transport", transport_report runtime.transport w.host)
        ∷ ("status", status_report runtime.status)
        ∷ ("snapshot", snapshot_report runtime.snapshots.snapshot)
        ∷ ("identity_mismatch", bool w.reconciler.identity_mismatch)
        ∷ [])
