-- ===== src/Snapshot.antt =====
-- custom_components/rf_cloner/snapshot.py: the restorable replica of a bridge's registry. One
-- refresh is modelled as running alone: the background tasks of two polls do not interleave here.
pub mod Stored
pub mod Refresh
mod Tests
use Prim.Native.String.{◌++◌}
use esphome_rf_cloner.Base.{
  ℤ, String, Bool, true, false, ◌&&◌, Option, none, some, List, [], ◌∷◌, map, if◌then◌else◌, ◌==◌,
  int_eq, string_eq,
}
use esphome_rf_cloner.Base.Dict.{Dict}
use esphome_rf_cloner.Python.Result.{
  Result, ok, err, Exception, key_error, type_error, value_error, ◌>>=◌, is_home_assistant_error,
}
use esphome_rf_cloner.Python.Exec.{Exec, pure}
use esphome_rf_cloner.Python.Exec
use esphome_rf_cloner.Python.Value.{
  Value, str, int, list, dict, of_list, of_dict, at, iterate, as_int, as_str,
}
use esphome_rf_cloner.Const.{domain}
use esphome_rf_cloner.Host.{Host}
use esphome_rf_cloner.Models.CommandInfo.{CommandInfo}
use esphome_rf_cloner.Models.BridgeStatus.{BridgeStatus}
use esphome_rf_cloner.Models.ExportedCommand
use esphome_rf_cloner.Models.ExportedCommand.{ExportedCommand, as_dict}
use esphome_rf_cloner.Transport.{BridgeTransport, async_export}

pub record Snapshot (Datetime : Type 0) : Type 0 where
  pub bridge_id : String
  pub revision : ℤ
  pub next_command_id : ℤ
  pub captured_at : Datetime
  pub commands : List ExportedCommand

-- `Snapshot.as_stored`
unfoldable pub as_stored : (H : Host) → Snapshot H.Datetime → Dict String Value
as_stored H snapshot =
    ("bridge_id", str snapshot.bridge_id)
    ∷ ("revision", int snapshot.revision)
    ∷ ("next_command_id", int snapshot.next_command_id)
    ∷ ("captured_at", str (H.isoformat snapshot.captured_at))
    ∷ ("commands", list (of_list (map (λ c. dict (of_dict (as_dict c))) snapshot.commands)))
    ∷ []

-- `except (KeyError, TypeError, ValueError): return None`
abbrev pub unreadable {ℓ} : {A : Type ℓ} → Result (Option A) → Result (Option A)
unreadable (err key_error) = ok none
unreadable (err type_error) = ok none
unreadable (err value_error) = ok none
unreadable r = r

module _ (H : Host) where
  abbrev pub and_rest :
      ExportedCommand → Option (List ExportedCommand) → Option (List ExportedCommand)
  and_rest command none = none
  and_rest command (some rest) = some (command ∷ rest)

  -- The loop over the stored commands: `none` as soon as one of them is not found.
  unfoldable pub read_commands : List Value → Result (Option (List ExportedCommand))
  read_commands [] = ok (some [])
  read_commands (item ∷ items) =
      let rest = read_commands items in
      do
        command ← ExportedCommand.from_payload H.repr item
        elim command [ none ↦ ok none | some c ↦ do found ← rest; ok (and_rest c found) ]

  abbrev rebuilt :
      Dict String Value
      → H.Datetime
      → Option (List ExportedCommand)
      → Result (Option (Snapshot H.Datetime))
  rebuilt payload captured_at none = ok none
  rebuilt payload captured_at (some commands) = do
    bridge_id ← at payload "bridge_id"
    revision_value ← at payload "revision"
    revision ← as_int revision_value
    next_value ← at payload "next_command_id"
    next_command_id ← as_int next_value
    ok (
        some (record {
          bridge_id = as_str H.repr bridge_id;
          revision = revision;
          next_command_id = next_command_id;
          captured_at = captured_at;
          commands = commands;
        }))

  abbrev with_time : Dict String Value → Option H.Datetime → Result (Option (Snapshot H.Datetime))
  with_time payload none = ok none
  with_time payload (some captured_at) = do
    stored ← at payload "commands"
    items ← iterate stored
    commands ← read_commands items
    rebuilt payload captured_at commands

  -- `Snapshot.from_stored`
  unfoldable pub from_stored : Dict String Value → Result (Option (Snapshot H.Datetime))
  from_stored payload = unreadable (do
    written ← at payload "captured_at"
    captured_at ← H.parse_datetime written
    with_time payload captured_at)

  -- `SnapshotManager`; its store is named by the bridge.
  pub record SnapshotManager : Type 0 where
    pub bridge_id : String
    pub transport : BridgeTransport
    pub snapshot : Option (Snapshot H.Datetime)

  unfoldable pub store_key : String → String
  store_key bridge_id = domain ++ "." ++ bridge_id ++ ".snapshot"

  abbrev Managed : Type 0
  Managed = SnapshotManager × H.State

  abbrev pub loaded : SnapshotManager → Option (Dict String Value) → Result SnapshotManager
  loaded m none = ok m
  loaded m (some stored) = do snapshot ← from_stored stored; ok (record m { snapshot = snapshot })

  -- `SnapshotManager.async_load`
  unfoldable pub async_load : SnapshotManager → H.State → Result SnapshotManager
  async_load m s = loaded m (H.store_load s (store_key m.bridge_id))

  -- `async_remove_snapshot`
  unfoldable pub async_remove_snapshot : String → H.State → H.State
  unfolding store_key
  async_remove_snapshot bridge_id = H.store_remove (store_key bridge_id)

  abbrev pub export_next :
      Option ExportedCommand
      → Exec H.State (Option (List ExportedCommand))
      → Exec H.State (Option (List ExportedCommand))
  export_next none rest = pure none
  export_next (some exported) rest = Exec.◌>>=◌ rest λ found. pure (and_rest exported found)

  -- `SnapshotManager._async_export_all`
  unfoldable pub export_all :
      BridgeTransport → List CommandInfo → Exec H.State (Option (List ExportedCommand))
  export_all t [] = pure (some [])
  export_all t (command ∷ commands) =
      Exec.◌>>=◌ (async_export H t command.command_id)
        λ exported. export_next exported (export_all t commands)

  -- Whether the replica is of this very revision of this bridge.
  abbrev pub is_current : Option (Snapshot H.Datetime) → BridgeStatus → Bool
  is_current none status = false
  is_current (some current) status =
      current.bridge_id == status.bridge_id && current.revision == status.revision

  abbrev pub snapshot_of : BridgeStatus → List ExportedCommand → H.State → Snapshot H.Datetime
  snapshot_of status commands s = record {
    bridge_id = status.bridge_id;
    revision = status.revision;
    next_command_id = status.next_command_id;
    captured_at = H.utcnow s;
    commands = commands;
  }

  -- What follows the export: an error of Home Assistant's is logged, a missing command gives up.
  abbrev pub stored :
      BridgeStatus
      → SnapshotManager
      → Result (Option (List ExportedCommand))
      → H.State
      → Result (Unit {0}) × Managed
  stored status m (err e) s =
      (elim (is_home_assistant_error e) [ true ↦ ok tt | false ↦ err e ], (m, s))
  stored status m (ok none) s = (ok tt, (m, s))
  stored status m (ok (some commands)) s =
      let snapshot = snapshot_of status commands s in
      (
        ok tt,
        (
          record m { snapshot = some snapshot },
          H.store_save (store_key m.bridge_id) (as_stored H snapshot) s,
        ),
      )

  -- Whether a refresh reads the registry at all.
  unfoldable pub wants_refresh : SnapshotManager → BridgeStatus → Bool
  wants_refresh m status =
      if status.bridge_id == m.bridge_id
      then if status.restore_incomplete
        then false
        else if is_current m.snapshot status
        then false
        else true
      else false

  -- `SnapshotManager.async_refresh`
  unfoldable pub async_refresh :
      BridgeStatus → SnapshotManager × H.State → Result (Unit {0}) × (SnapshotManager × H.State)
  async_refresh status (m, s) = elim (wants_refresh m status) [
    | false ↦ (ok tt, (m, s))
    | true ↦ let (r, s') = export_all m.transport status.commands s in stored status m r s'
  ]
