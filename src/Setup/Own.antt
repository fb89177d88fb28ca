-- ===== src/Setup/Own.antt =====
-- __init__.py: the replica that a loaded bridge holds is one of its own.
use mathlib.Core.Path.{subst}
use esphome_rf_cloner.Base.{
  String, ◌≡◌, refl, sym, inl, inr, Bool, true, false, Option, none, some, if◌then◌else◌, string_eq,
  arith,
}
use esphome_rf_cloner.Base.Dict.{Dict}
use esphome_rf_cloner.Python.Result.{Result, ok, err, ◌>>=◌}
use esphome_rf_cloner.Python.Value.{Value}
use esphome_rf_cloner.Python.Exec
use esphome_rf_cloner.Entry.{ConfigEntry}
use esphome_rf_cloner.Host.{Host}
use esphome_rf_cloner.Registry.{EntityRegistry}
use esphome_rf_cloner.Devices.{
  DeviceEntry, DeviceRegistry, async_register_bridge_device, async_sync_target_devices,
}
use esphome_rf_cloner.Models.BridgeStatus.{BridgeStatus}
use esphome_rf_cloner.Transport.{BridgeTransport}
use esphome_rf_cloner.Snapshot.{
  Snapshot, SnapshotManager, store_key, from_stored, loaded, async_load, wants_refresh,
  async_refresh,
}
use esphome_rf_cloner.Snapshot.Refresh.{Leaves, async_refresh-Leaves}
use esphome_rf_cloner.Coordinator.{async_update_data}
use esphome_rf_cloner.Runtime.{RfClonerRuntimeData, World, entry_of}
use esphome_rf_cloner.Setup
use esphome_rf_cloner.Setup.{
  adopted, identity_or, transport_to, follow_status, async_handle_status, handle_status, async_poll,
  poll, polled, async_entry_updated, updated_in, updated, same_binding, binding, async_setup_entry,
  set_up, registered, placed, finished, new_manager, present, first_refresh, synced, adopt,
  activated,
}

module _ (H : Host) where
  -- Every replica that is stored can only be read under the identity of its own bridge.
  abbrev pub OwnStored : H.State → Type 0
  OwnStored s =
      (bridge_id : String) (stored : Dict String Value) (snapshot : Snapshot H.Datetime)
      → H.store_load s (store_key H bridge_id) ≡ some stored
      → from_stored H stored ≡ ok (some snapshot)
      → snapshot.bridge_id ≡ bridge_id

  -- The replica that is held, if there is one, says that it is of the manager's bridge.
  abbrev pub OwnReplica : SnapshotManager H → Type 0
  OwnReplica m =
      (snapshot : Snapshot H.Datetime)
      → m.snapshot ≡ some snapshot
      → snapshot.bridge_id ≡ m.bridge_id

  wants_refresh-own :
      (status : BridgeStatus) (m : SnapshotManager H)
      → wants_refresh H m status ≡ true
      → status.bridge_id ≡ m.bridge_id
  unfolding wants_refresh
  wants_refresh-own status m h = ground arith

  Leaves-own :
      (status : BridgeStatus) (m : SnapshotManager H) (s : H.State)
      (ρ : Result (Unit {0}) × (SnapshotManager H × H.State))
      → Leaves H status m s ρ
      → OwnReplica m
      → OwnReplica ρ.1.0
  Leaves-own status m s ρ (inl (same, calls)) own = subst OwnReplica (sym same) own
  Leaves-own status m s ρ (inr (es, s₁, exported, wanted, fine, held, saved)) own =
      subst OwnReplica (sym held)
        λ snapshot h. let same = wants_refresh-own status m wanted in ground arith

  async_refresh-own :
      (status : BridgeStatus) (m : SnapshotManager H) (s : H.State)
      → OwnReplica m
      → OwnReplica (async_refresh H status (m, s)).1.0
  async_refresh-own status m s =
      Leaves-own status m s (async_refresh H status (m, s)) (async_refresh-Leaves H status m s)

  read_own :
      (m m' : SnapshotManager H) (r : Result (Option (Snapshot H.Datetime)))
      → ((snapshot : Snapshot H.Datetime)
          → r ≡ ok (some snapshot)
          → snapshot.bridge_id ≡ m.bridge_id)
      → (do snapshot ← r; ok (record m { snapshot = snapshot })) ≡ ok m'
      → OwnReplica m'
  read_own m m' (err e) own h = λ snapshot held. cc
  read_own m m' (ok none) own h =
      let same : record m { snapshot = none } ≡ m' = ground arith in
      subst OwnReplica same λ snapshot held. cc
  read_own m m' (ok (some read)) own h =
      let same : record m { snapshot = some read } ≡ m' = ground arith in
      subst OwnReplica same λ snapshot held.
        let is_read : read ≡ snapshot = ground arith in rw (← is_read) (own read refl)

  loaded-own :
      (m m' : SnapshotManager H) (s : H.State) (o : Option (Dict String Value))
      → H.store_load s (store_key H m.bridge_id) ≡ o
      → OwnStored s
      → OwnReplica m
      → loaded H m o ≡ ok m'
      → OwnReplica m'
  loaded-own m m' s none there stores own h =
      let same : m ≡ m' = ground arith in subst OwnReplica same own
  loaded-own m m' s (some stored) there stores own h =
      read_own m m' (from_stored H stored) (λ snapshot. stores m.bridge_id stored snapshot there) h

  async_load-own :
      (m m' : SnapshotManager H) (s : H.State)
      → OwnStored s
      → OwnReplica m
      → async_load H m s ≡ ok m'
      → OwnReplica m'
  unfolding async_load
  async_load-own m m' s stores own h = loaded-own m m' s _ refl stores own h

module _ (H : Host) (R : EntityRegistry) (D : DeviceRegistry) where
  abbrev OwnIn : Option (RfClonerRuntimeData H) → Type 0
  OwnIn none = Unit {0}
  OwnIn (some runtime) = OwnReplica H runtime.snapshots

  -- A world whose bridge, if it is loaded, holds no replica of another.
  abbrev pub IsOwn : World H R D → Type 0
  IsOwn w = OwnIn w.runtime

  follow_status-IsOwn :
      (runtime : RfClonerRuntimeData H) (status : BridgeStatus) (w : World H R D)
      → OwnReplica H runtime.snapshots
      → IsOwn (follow_status H R D runtime status w)
  unfolding follow_status
  follow_status-IsOwn runtime status w own = async_refresh-own H status runtime.snapshots w.host own

  polled-IsOwn :
      (runtime : RfClonerRuntimeData H) (r : Result BridgeStatus) (w : World H R D)
      → OwnReplica H runtime.snapshots
      → IsOwn w
      → IsOwn (polled H R D runtime r w)
  polled-IsOwn runtime (err e) w held own = own
  polled-IsOwn runtime (ok status) w held own =
      follow_status-IsOwn (record runtime { status = some status }) status w held

  poll-IsOwn :
      (o : Option (RfClonerRuntimeData H)) (w : World H R D)
      → OwnIn o
      → IsOwn w
      → IsOwn (poll H R D o w)
  poll-IsOwn none w held own = own
  poll-IsOwn (some runtime) w held own =
      let (r, s) = async_update_data H runtime.transport w.host in
      polled-IsOwn runtime r (record w { host = s }) held own

  pub async_poll-IsOwn : (w : World H R D) → IsOwn w → IsOwn (async_poll H R D w)
  unfolding async_poll
  async_poll-IsOwn w own = poll-IsOwn w.runtime w own own

  handle_status-IsOwn :
      (o : Option (RfClonerRuntimeData H)) (w : World H R D)
      → OwnIn o
      → IsOwn w
      → IsOwn (handle_status H R D o w)
  handle_status-IsOwn none w held own = own
  handle_status-IsOwn (some runtime) w held own =
      elim runtime.status
        as (λ o. IsOwn (elim o as (λ _. World H R D) [
          | none ↦ w
          | some status ↦ follow_status H R D runtime status w
        ])) [ none ↦ own | some status ↦ follow_status-IsOwn runtime status w held ]

  pub async_handle_status-IsOwn : (w : World H R D) → IsOwn w → IsOwn (async_handle_status H R D w)
  unfolding async_handle_status
  async_handle_status-IsOwn w own = handle_status-IsOwn w.runtime w own own

  updated_if-IsOwn :
      (same : Bool) (w w' : World H R D)
      → IsOwn w'
      → IsOwn w
      → let ended : Result Bool × World H R D = if same then (ok false, w') else (ok true, w) in
        IsOwn ended.1
  updated_if-IsOwn true w w' own' own = own'
  updated_if-IsOwn false w w' own' own = own

  updated-IsOwn :
      (runtime : RfClonerRuntimeData H) (w : World H R D) (b : Result (String × String))
      → IsOwn w
      → IsOwn (updated H R D runtime w b).1
  updated-IsOwn runtime w (err e) own = own
  updated-IsOwn runtime w (ok bound_to) own =
      updated_if-IsOwn (same_binding bound_to runtime.bound_to) w (synced H R D runtime w) own own

  updated_in-IsOwn :
      (o : Option (RfClonerRuntimeData H)) (w : World H R D)
      → IsOwn w
      → IsOwn (updated_in H R D o w).1
  updated_in-IsOwn none w own = own
  updated_in-IsOwn (some runtime) w own = updated-IsOwn runtime w (binding (entry_of w)) own

  pub async_entry_updated-IsOwn :
      (w : World H R D) → IsOwn w → IsOwn (async_entry_updated H R D w).1
  unfolding async_entry_updated
  async_entry_updated-IsOwn w own = updated_in-IsOwn w.runtime w own

  -- The store is read in the state that the first read of the bridge has left.
  abbrev pub LoadsOwn : World H R D → Type 0
  LoadsOwn w = (t : BridgeTransport) → OwnStored H (async_update_data H t w.host).1

  placed-IsOwn :
      (status : BridgeStatus) (known : ConfigEntry) (bound_to : String × String)
      (bridge_id : String) (device : DeviceEntry) (w : World H R D)
      → OwnStored H w.host
      → IsOwn w
      → IsOwn (placed H R D status known bound_to bridge_id device w).1
  placed-IsOwn status known bound_to bridge_id device w stores own =
      let synced : World H R D = record w {
        devices = async_sync_target_devices D known bridge_id device.id w.devices;
      } in
      let m = new_manager H R D bridge_id bound_to in
      Exec.continue-holds IsOwn (async_load H m w.host)
        (finished H R D status bound_to bridge_id device.id) synced own
        λ m' is_loaded.
          async_handle_status-IsOwn
            (activated H R D (Setup.loaded H R D status bound_to bridge_id device.id m' synced))
            (async_load-own H m m' w.host stores (λ snapshot held. cc) is_loaded)

  registered-IsOwn :
      (entry : ConfigEntry) (esphome_entry : Option ConfigEntry) (status : BridgeStatus)
      (bound_to : String × String) (w : World H R D)
      → OwnStored H w.host
      → IsOwn w
      → IsOwn (registered H R D entry esphome_entry bound_to status w).1
  registered-IsOwn entry esphome_entry status bound_to w stores own =
      let known = adopted status.bridge_id entry in
      let bridge_id = identity_or status.bridge_id known.unique_id in
      let (r, s) =
        async_register_bridge_device D known esphome_entry bound_to.0 bridge_id w.devices in
      let here : World H R D = record (adopt H R D status.bridge_id w) { devices = s } in
      Exec.continue-holds IsOwn r (placed H R D status known bound_to bridge_id) here own
        λ device _. placed-IsOwn status known bound_to bridge_id device here stores own

  set_up-IsOwn :
      (entry : ConfigEntry) (bound_to : String × String) (w : World H R D)
      → LoadsOwn w
      → IsOwn w
      → IsOwn (set_up H R D entry bound_to w).1
  set_up-IsOwn entry bound_to w stores own =
      let esphome_entry = H.get_entry w.host bound_to.0 in
      let (r, read) = first_refresh H R D (transport_to bound_to) w in
      Exec.continue-holds IsOwn (present esphome_entry)
        (λ _.
          Exec.◌>>=◌ (first_refresh H R D (transport_to bound_to))
            (registered H R D entry esphome_entry bound_to))
        w own
        λ here _.
          Exec.continue-holds IsOwn r (registered H R D entry esphome_entry bound_to) read own
            λ status _.
              registered-IsOwn entry esphome_entry status bound_to read
                (stores (transport_to bound_to)) own

  -- A set-up, wherever it ends, holds no replica of another bridge.
  pub async_setup_entry-IsOwn :
      (w : World H R D) → LoadsOwn w → IsOwn w → IsOwn (async_setup_entry H R D w).1
  unfolding async_setup_entry
  async_setup_entry-IsOwn w stores own =
      Exec.continue-holds IsOwn (binding (entry_of w)) (set_up H R D (entry_of w)) w own
        λ bound_to _. set_up-IsOwn (entry_of w) bound_to w stores own
