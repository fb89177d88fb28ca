-- ===== src/Setup/Start.antt =====
-- Setting a bridge up makes it one identity's, wherever the set-up ends.
use mathlib.Core.Path.{subst}
use esphome_rf_cloner.Base.{String, ◌≡◌, refl, sym, ap, ◌∙◌, Option, none, some}
use esphome_rf_cloner.Python.Exec
use esphome_rf_cloner.Python.Exec.{◌>>=◌}
use esphome_rf_cloner.Entry.{ConfigEntry}
use esphome_rf_cloner.Host.{Host}
use esphome_rf_cloner.Registry.{EntityRegistry}
use esphome_rf_cloner.Devices.{
  DeviceEntry, DeviceRegistry, async_register_bridge_device, async_sync_target_devices,
}
use esphome_rf_cloner.Models.BridgeStatus.{BridgeStatus}
use esphome_rf_cloner.Snapshot.{SnapshotManager, async_load}
use esphome_rf_cloner.Snapshot.Stored.{async_load-kept}
use esphome_rf_cloner.Reconcile.{
  async_snapshot_targets, new_reconciler, async_activate, async_add_listener,
}
use esphome_rf_cloner.Reconcile.Kept.{async_reconcile-identity}
use esphome_rf_cloner.Runtime.{World, entry_of}
use esphome_rf_cloner.Setup
use esphome_rf_cloner.Setup.{
  adopted, identity_or, transport_to, follow_status, async_handle_status, handle_status, async_poll,
  poll, polled, async_entry_updated, updated_in, updated, same_binding, binding, async_setup_entry,
  set_up, registered, placed, finished, new_manager, present, first_refresh, synced, runtime_data,
  adopt, reconciled, activated,
}
use esphome_rf_cloner.Setup.Identity.{Agrees, IsSound, adopted-Owns, adopted-kept}
use esphome_rf_cloner.Setup.Sound.{whose, Fine, async_handle_status-Fine}

module _ (H : Host) (R : EntityRegistry) (D : DeviceRegistry) where
  loaded-Fine :
      (status : BridgeStatus) (entry : ConfigEntry) (bound_to : String × String)
      (device_id : String) (m : SnapshotManager H) (w : World H R D)
      → entry_of w ≡ adopted status.bridge_id entry
      → let bridge_id = identity_or status.bridge_id (adopted status.bridge_id entry).unique_id in
        (m.bridge_id ≡ bridge_id)
        → m.transport ≡ transport_to bound_to
        → Fine H R D w (Setup.loaded H R D status bound_to bridge_id device_id m w)
  unfolding async_snapshot_targets new_reconciler
  loaded-Fine status entry bound_to device_id m w own bridge transport = (
    async_reconcile-identity R status _,
    subst
        (λ u. Agrees H u (
          runtime_data H R D status bound_to
            (identity_or status.bridge_id (adopted status.bridge_id entry).unique_id) device_id m))
        (sym (async_reconcile-identity R status _ ∙ ap (λ (e : ConfigEntry). e.unique_id) own))
        (record {
          owner = adopted-Owns status.bridge_id entry;
          replica = bridge;
          bound = refl;
          calls = transport;
        }),
  )

  activated-Fine :
      (w : World H R D)
      → IsSound H R D w
      → Fine H R D w (async_handle_status H R D (activated H R D w))
  unfolding async_activate async_snapshot_targets async_add_listener
  activated-Fine w sound = async_handle_status-Fine H R D (activated H R D w) sound

  -- What a set-up may leave of a world in which the entry was `entry`.
  abbrev pub SetUp : ConfigEntry → World H R D → Type 0
  SetUp entry w =
      ((u : String) → entry.unique_id ≡ some u → whose H R D w ≡ some u) × IsSound H R D w

  -- Before the runtime data are there, a set-up may stop anywhere.
  Pending-SetUp :
      (entry : ConfigEntry) (w : World H R D)
      → ((u : String) → entry.unique_id ≡ some u → whose H R D w ≡ some u)
      → w.runtime ≡ none
      → SetUp entry w
  Pending-SetUp entry w kept off = (kept, rw off tt)

  finished-SetUp :
      (entry : ConfigEntry) (status : BridgeStatus) (bound_to : String × String)
      (device_id : String) (m : SnapshotManager H) (w : World H R D)
      → let known = adopted status.bridge_id entry in
        let bridge_id = identity_or status.bridge_id known.unique_id in
        (entry_of w ≡ known)
        → m.bridge_id ≡ bridge_id
        → m.transport ≡ transport_to bound_to
        → SetUp entry (finished H R D status bound_to bridge_id device_id m w).1
  finished-SetUp entry status bound_to device_id m w own bridge transport =
      let bridge_id = identity_or status.bridge_id (adopted status.bridge_id entry).unique_id in
      let now = Setup.loaded H R D status bound_to bridge_id device_id m w in
      let (same, sound) = loaded-Fine status entry bound_to device_id m w own bridge transport in
      let (still, ended) = activated-Fine now sound in
      (
        (λ u h.
            still
            ∙ same
            ∙ ap (λ (e : ConfigEntry). e.unique_id) own
            ∙ adopted-kept status.bridge_id entry h),
        ended,
      )

  placed-SetUp :
      (entry : ConfigEntry) (status : BridgeStatus) (bound_to : String × String)
      (device : DeviceEntry) (w : World H R D)
      → let known = adopted status.bridge_id entry in
        (entry_of w ≡ known)
        → SetUp entry w
        → SetUp entry
            (placed H R D status known bound_to
              (identity_or status.bridge_id known.unique_id)
              device
              w).1
  placed-SetUp entry status bound_to device w own stays =
      let known = adopted status.bridge_id entry in
      let bridge_id = identity_or status.bridge_id known.unique_id in
      let synced : World H R D = record w {
        devices = async_sync_target_devices D known bridge_id device.id w.devices;
      } in
      let m = new_manager H R D bridge_id bound_to in
      Exec.continue-holds (SetUp entry) (async_load H m w.host)
        (finished H R D status bound_to bridge_id device.id) synced stays
        λ m' is_loaded.
          let (bridge, transport) = async_load-kept H m w.host is_loaded in
          finished-SetUp entry status bound_to device.id m' synced own bridge transport

  registered-SetUp :
      (esphome_entry : Option ConfigEntry) (status : BridgeStatus) (bound_to : String × String)
      (w : World H R D)
      → w.runtime ≡ none
      → SetUp (entry_of w) (registered H R D (entry_of w) esphome_entry bound_to status w).1
  registered-SetUp esphome_entry status bound_to w off =
      let entry = entry_of w in
      let known = adopted status.bridge_id entry in
      let bridge_id = identity_or status.bridge_id known.unique_id in
      let (r, s) =
        async_register_bridge_device D known esphome_entry bound_to.0 bridge_id w.devices in
      let here : World H R D = record (adopt H R D status.bridge_id w) { devices = s } in
      let stays : SetUp entry here =
        Pending-SetUp entry here (λ u. adopted-kept status.bridge_id entry) off in
      Exec.continue-holds (SetUp entry) r (placed H R D status known bound_to bridge_id) here stays
        λ device _. placed-SetUp entry status bound_to device here refl stays

  set_up-SetUp :
      (bound_to : String × String) (w : World H R D)
      → w.runtime ≡ none
      → SetUp (entry_of w) (set_up H R D (entry_of w) bound_to w).1
  set_up-SetUp bound_to w off =
      let entry = entry_of w in
      let esphome_entry = H.get_entry w.host bound_to.0 in
      let (r, s) = first_refresh H R D (transport_to bound_to) w in
      let stays : SetUp entry w = Pending-SetUp entry w (λ u h. h) off in
      Exec.continue-holds (SetUp entry) (present esphome_entry)
        (λ _.
          first_refresh H R D (transport_to bound_to)
          >>= registered H R D entry esphome_entry bound_to)
        w stays
        λ here _.
          Exec.continue-holds (SetUp entry) r (registered H R D entry esphome_entry bound_to) s
            (Pending-SetUp entry s (λ u h. h) off)
            λ status _. registered-SetUp esphome_entry status bound_to s off

  -- A set-up, wherever it ends, keeps an identity that the entry has, and a bridge that it has
  -- loaded is of one identity.
  pub async_setup_entry-SetUp :
      (w : World H R D) → w.runtime ≡ none → SetUp (entry_of w) (async_setup_entry H R D w).1
  unfolding async_setup_entry
  async_setup_entry-SetUp w off =
      Exec.continue-holds (SetUp (entry_of w)) (binding (entry_of w)) (set_up H R D (entry_of w)) w
        (Pending-SetUp (entry_of w) w (λ u h. h) off) λ bound_to _. set_up-SetUp bound_to w off
