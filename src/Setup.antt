-- ===== src/Setup.antt =====
-- custom_components/rf_cloner/__init__.py: setting a bridge up, following its polls and its entry's
-- changes, and taking it down. A background task is modelled as running at once, and alone.
pub mod Identity
pub mod Foreign
pub mod Sound
pub mod Own
pub mod Start
pub mod System
mod Tests
use esphome_rf_cloner.Base.{
  ℕ, String, Bool, true, false, not, ◌&&◌, Option, some, none, if◌then◌else◌, ◌==◌, string_eq,
}
use esphome_rf_cloner.Python.Result.{Result, ok, err, config_entry_error, config_entry_not_ready}
use esphome_rf_cloner.Python.Exec.{Exec, pure, lift, gets, ◌>>=◌, ◌>>◌}
use esphome_rf_cloner.Python.Text.{is_empty}
use esphome_rf_cloner.Python.Value.{Value, str, at, get}
use esphome_rf_cloner.Const.{conf_esphome_entry_id, conf_action_prefix, default_action_prefix}
use esphome_rf_cloner.Entry.{ConfigEntry}
use esphome_rf_cloner.Host.{Host}
use esphome_rf_cloner.Registry.{EntityRegistry}
use esphome_rf_cloner.Devices.{
  DeviceEntry, DeviceRegistry, async_register_bridge_device, async_sync_target_devices,
}
use esphome_rf_cloner.Models.BridgeStatus.{BridgeStatus}
use esphome_rf_cloner.Transport.{BridgeTransport}
use esphome_rf_cloner.Snapshot.{SnapshotManager, async_load, async_refresh, async_remove_snapshot}
use esphome_rf_cloner.Coordinator.{async_update_data}
use esphome_rf_cloner.Reconcile.{
  CommandReconciler, new_reconciler, async_add_listener, async_snapshot_targets, async_reconcile,
  async_activate, async_deactivate, async_handle_entry_update,
}
use esphome_rf_cloner.Runtime.{
  RfClonerRuntimeData, World, entry_of, on_host, on_devices, modify, on_reconciler, as_text,
}

-- The listener by which the button platform follows the reconciler.
abbrev pub button_listener : ℕ
button_listener = 0

-- `entry.unique_id or status.bridge_id`
abbrev pub identity_or : String → Option String → String
identity_or reported none = reported
identity_or reported (some unique_id) = if is_empty unique_id then reported else unique_id

abbrev pub adopted_as : Option String → String → ConfigEntry → ConfigEntry
adopted_as none reported entry = record entry { unique_id = some reported }
adopted_as (some u) reported entry = entry

-- The entry with the identity that it adopts, if it has none.
abbrev pub adopted : String → ConfigEntry → ConfigEntry
adopted reported entry = adopted_as entry.unique_id reported entry

-- The node and the prefix that the entry points at.
unfoldable pub binding : ConfigEntry → Result (String × String)
unfolding at get
binding entry = elim (at entry.content conf_esphome_entry_id) [
  | err e ↦ err e
  | ok esphome_value ↦ elim (as_text esphome_value) [
    | err e ↦ err e
    | ok esphome_entry_id ↦
        elim (as_text (get entry.content conf_action_prefix (str default_action_prefix))) [
          | err e ↦ err e
          | ok action_prefix ↦ ok (esphome_entry_id, action_prefix)
        ]
  ]
]

abbrev pub transport_to : String × String → BridgeTransport
transport_to (esphome_entry_id, action_prefix) = record {
  esphome_entry_id = esphome_entry_id;
  action_prefix = action_prefix;
}

abbrev pub same_binding : String × String → String × String → Bool
same_binding (a, b) (c, d) = a == c && b == d

abbrev pub present : Option ConfigEntry → Result (Unit {0})
present none = err (config_entry_error "esphome_entry_missing")
present (some entry) = ok tt

abbrev pub not_ready {ℓ} : {A : Type ℓ} → Result A → Result A
not_ready (ok a) = ok a
not_ready (err e) = err (config_entry_not_ready e)

module _ (H : Host) (R : EntityRegistry) (D : DeviceRegistry) where
  -- `async_config_entry_first_refresh`, which turns every failure into `ConfigEntryNotReady`
  abbrev pub first_refresh : BridgeTransport → Exec (World H R D) BridgeStatus
  first_refresh t w =
      let (r, s) = async_update_data H t w.host in (not_ready r, record w { host = s })

  -- `_async_handle_status` with a status: the organisation, then the replica.
  unfoldable pub follow_status : RfClonerRuntimeData H → BridgeStatus → World H R D → World H R D
  follow_status runtime status w =
      let (_, (snapshots, s)) = async_refresh H status (runtime.snapshots, w.host) in
      record w {
        host = s;
        reconciler = async_reconcile R status w.reconciler;
        runtime = some (record runtime { snapshots = snapshots });
      }

  abbrev pub handle_status : Option (RfClonerRuntimeData H) → World H R D → World H R D
  handle_status none w = w
  handle_status (some runtime) w = elim runtime.status [
    | none ↦ w
    | some status ↦ follow_status runtime status w
  ]

  -- `_async_handle_status`
  unfoldable pub async_handle_status : World H R D → World H R D
  async_handle_status w = handle_status w.runtime w

  abbrev pub adopt : String → World H R D → World H R D
  adopt reported w = record w {
    reconciler = record w.reconciler { entry = adopted reported (entry_of w) };
  }

  abbrev pub reconciled : BridgeStatus → ConfigEntry → R.State → CommandReconciler R
  reconciled status entry registry =
      async_reconcile R status (async_snapshot_targets R (new_reconciler R entry registry))

  -- What the platforms' set-up adds, and what follows it.
  abbrev pub activated : World H R D → World H R D
  activated w = on_reconciler (λ m. async_activate R (async_add_listener R button_listener m)) w

  abbrev pub runtime_data :
      BridgeStatus → String × String → String → String → SnapshotManager H → RfClonerRuntimeData H
  runtime_data status bound_to bridge_id bridge_device_id snapshots = record {
    bridge_id = bridge_id;
    bridge_device_id = bridge_device_id;
    transport = transport_to bound_to;
    status = some status;
    snapshots = snapshots;
    bound_to = bound_to;
  }

  abbrev pub loaded :
      BridgeStatus
      → String × String
      → String
      → String
      → SnapshotManager H
      → World H R D
      → World H R D
  loaded status bound_to bridge_id bridge_device_id snapshots w = record w {
    reconciler = reconciled status (entry_of w) w.reconciler.registry;
    runtime = some (runtime_data status bound_to bridge_id bridge_device_id snapshots);
  }

  -- The rest of `async_setup_entry` from the reconciler on.
  abbrev pub finished :
      BridgeStatus → String × String → String → String → SnapshotManager H → Exec (World H R D) Bool
  finished status bound_to bridge_id bridge_device_id snapshots w =
      let ready = activated (loaded status bound_to bridge_id bridge_device_id snapshots w) in
      (ok true, async_handle_status ready)

  abbrev pub new_manager : String → String × String → SnapshotManager H
  new_manager bridge_id bound_to = record {
    bridge_id = bridge_id;
    transport = transport_to bound_to;
    snapshot = none;
  }

  -- From the target devices on.
  abbrev pub placed :
      BridgeStatus → ConfigEntry → String × String → String → DeviceEntry → Exec (World H R D) Bool
  placed status known bound_to bridge_id device = do
    modify (λ w. record w {
      devices = async_sync_target_devices D known bridge_id device.id w.devices;
    })
    snapshots ← λ w. (async_load H (new_manager bridge_id bound_to) w.host, w)
    finished status bound_to bridge_id device.id snapshots

  -- From the first status on.
  abbrev pub registered :
      ConfigEntry → Option ConfigEntry → String × String → BridgeStatus → Exec (World H R D) Bool
  registered entry esphome_entry bound_to status =
      let known = adopted status.bridge_id entry in
      let bridge_id = identity_or status.bridge_id known.unique_id in
      do
        modify (adopt status.bridge_id)
        device ←
            on_devices (async_register_bridge_device D known esphome_entry bound_to.0 bridge_id)
        placed status known bound_to bridge_id device

  -- `async_setup_entry` of an entry that points there.
  abbrev pub set_up : ConfigEntry → String × String → Exec (World H R D) Bool
  set_up entry bound_to = do
    esphome_entry ← gets (λ (w : World H R D). H.get_entry w.host bound_to.0)
    lift (present esphome_entry)
    status ← first_refresh (transport_to bound_to)
    registered entry esphome_entry bound_to status

  -- `async_setup_entry`
  unfoldable pub async_setup_entry : Exec (World H R D) Bool
  unfolding binding
  async_setup_entry w = (lift (binding (entry_of w)) >>= set_up (entry_of w)) w

  -- A poll of the coordinator: a failed one leaves what was read before. That Home Assistant may
  -- call the listeners then, too, is a step of its own in Setup/System.antt.
  abbrev pub polled : RfClonerRuntimeData H → Result BridgeStatus → World H R D → World H R D
  polled runtime (err e) w = w
  polled runtime (ok status) w = follow_status (record runtime { status = some status }) status w

  abbrev pub poll : Option (RfClonerRuntimeData H) → World H R D → World H R D
  poll none w = w
  poll (some runtime) w =
      let (r, s) = async_update_data H runtime.transport w.host in
      polled runtime r (record w { host = s })

  unfoldable pub async_poll : World H R D → World H R D
  async_poll w = poll w.runtime w

  -- `_async_entry_updated`, and whether it schedules a reload.
  abbrev pub synced : RfClonerRuntimeData H → World H R D → World H R D
  synced runtime w = record w {
    devices =
        async_sync_target_devices D (entry_of w) runtime.bridge_id runtime.bridge_device_id
          w.devices;
    reconciler = async_handle_entry_update R runtime.status w.reconciler;
  }

  abbrev pub updated :
      RfClonerRuntimeData H → World H R D → Result (String × String) → Result Bool × World H R D
  updated runtime w (err e) = (err e, w)
  updated runtime w (ok bound_to) =
      let next = synced runtime w in
      if same_binding bound_to runtime.bound_to then (ok false, next) else (ok true, w)

  abbrev pub updated_in : Option (RfClonerRuntimeData H) → World H R D → Result Bool × World H R D
  updated_in none w = (ok false, w)
  updated_in (some runtime) w = updated runtime w (binding (entry_of w))

  unfoldable pub async_entry_updated : Exec (World H R D) Bool
  unfolding binding
  async_entry_updated w = updated_in w.runtime w

  -- The unload hook that runs first, when Home Assistant unloads the entry.
  unfoldable pub async_unload_entry : World H R D → World H R D
  async_unload_entry w = record (on_reconciler (async_deactivate R) w) { runtime = none }

  abbrev discarded : Option String → H.State → H.State
  discarded none s = s
  discarded (some unique_id) s = async_remove_snapshot H unique_id s

  -- `async_remove_entry`
  unfoldable pub async_remove_entry : World H R D → World H R D
  unfolding async_remove_snapshot
  async_remove_entry w = record w { host = discarded (entry_of w).unique_id w.host }
