-- ===== src/Runtime.antt =====
-- custom_components/rf_cloner/data.py, and the state that the parts of a loaded bridge share.
use esphome_rf_cloner.Base.{String, Option}
use esphome_rf_cloner.Python.Result.{Result, ok, err, type_error}
use esphome_rf_cloner.Python.Exec.{Exec}
use esphome_rf_cloner.Python.Value.{Value, str}
use esphome_rf_cloner.Entry.{ConfigEntry}
use esphome_rf_cloner.Host.{Host}
use esphome_rf_cloner.Registry.{EntityRegistry}
use esphome_rf_cloner.Devices.{DeviceRegistry}
use esphome_rf_cloner.Models.BridgeStatus.{BridgeStatus}
use esphome_rf_cloner.Transport.{BridgeTransport}
use esphome_rf_cloner.Snapshot.{SnapshotManager}
use esphome_rf_cloner.Reconcile.{CommandReconciler}

-- `RfClonerRuntimeData`, but for the reconciler, which stands in the `World`. The coordinator is
-- the data that it last read, `status`, and the transport.
pub record RfClonerRuntimeData (H : Host) : Type 0 where
  pub bridge_id : String
  pub bridge_device_id : String
  pub transport : BridgeTransport
  pub status : Option BridgeStatus
  pub snapshots : SnapshotManager H
  pub bound_to : String × String

-- One bridge's part of Home Assistant: the devices, the reconciler with the entry and the entity
-- registry that it works on, and `getattr(entry, "runtime_data", None)`. Until the entry is set up
-- only the entry and the registry of the reconciler mean anything.
pub record World (H : Host) (R : EntityRegistry) (D : DeviceRegistry) : Type 0 where
  pub host : H.State
  pub devices : D.State
  pub reconciler : CommandReconciler R
  pub runtime : Option (RfClonerRuntimeData H)

module _ {H : Host} {R : EntityRegistry} {D : DeviceRegistry} where
  abbrev pub entry_of : World H R D → ConfigEntry
  entry_of w = w.reconciler.entry

  -- What is done to the host alone, and to the devices alone.
  abbrev pub on_host {ℓ} : {A : Type ℓ} → Exec H.State A → Exec (World H R D) A
  on_host m w = let (r, s) = m w.host in (r, record w { host = s })

  abbrev pub on_devices {ℓ} : {A : Type ℓ} → Exec D.State A → Exec (World H R D) A
  on_devices m w = let (r, s) = m w.devices in (r, record w { devices = s })

  abbrev pub modify : (World H R D → World H R D) → Exec (World H R D) (Unit {0})
  modify f w = (ok tt, f w)

  abbrev pub on_reconciler : (CommandReconciler R → CommandReconciler R) → World H R D → World H R D
  on_reconciler f w = record w { reconciler = f w.reconciler }

-- A value where the code has a text.
abbrev pub as_text : Value → Result String
as_text (str s) = ok s
as_text _ = err type_error
