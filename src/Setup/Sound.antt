-- ===== src/Setup/Sound.antt =====
-- Each operation of __init__.py keeps a loaded bridge of one identity.
use esphome_rf_cloner.Base.{String, ◌≡◌, refl, Bool, true, false, Option, none, some, if◌then◌else◌}
use esphome_rf_cloner.Python.Result.{Result, ok, err}
use esphome_rf_cloner.Host.{Host}
use esphome_rf_cloner.Registry.{EntityRegistry}
use esphome_rf_cloner.Devices.{DeviceRegistry}
use esphome_rf_cloner.Models.BridgeStatus.{BridgeStatus}
use esphome_rf_cloner.Coordinator.{async_update_data}
use esphome_rf_cloner.Reconcile.Kept.{
  identity, async_reconcile-identity, async_handle_entry_update-identity,
}
use esphome_rf_cloner.Runtime.{RfClonerRuntimeData, World, entry_of}
use esphome_rf_cloner.Setup.{
  follow_status, async_handle_status, handle_status, async_poll, poll, polled, async_entry_updated,
  updated_in, updated, same_binding, binding, synced,
}
use esphome_rf_cloner.Setup.Identity.{Agrees, AgreesIn, IsSound, follow_status-IsSound}

module _ (H : Host) (R : EntityRegistry) (D : DeviceRegistry) where
  abbrev pub whose : World H R D → Option String
  whose w = identity R w.reconciler

  follow_status-whose :
      (runtime : RfClonerRuntimeData H) (status : BridgeStatus) (w : World H R D)
      → whose (follow_status H R D runtime status w) ≡ whose w
  unfolding follow_status
  follow_status-whose runtime status w = async_reconcile-identity R status w.reconciler

  -- What a step may do: it does not change whose bridge this is, and it keeps it of one identity.
  abbrev pub Fine : World H R D → World H R D → Type 0
  Fine w w' = (whose w' ≡ whose w) × IsSound H R D w'

  polled-Fine :
      (runtime : RfClonerRuntimeData H) (r : Result BridgeStatus) (w : World H R D)
      → Agrees H (whose w) runtime
      → IsSound H R D w
      → Fine w (polled H R D runtime r w)
  polled-Fine runtime (err e) w a sound = (refl, sound)
  polled-Fine runtime (ok status) w a sound = (
    follow_status-whose (record runtime { status = some status }) status w,
    follow_status-IsSound H R D (record runtime { status = some status }) status w
        (record { owner = a.owner; replica = a.replica; bound = a.bound; calls = a.calls }),
  )

  poll-Fine :
      (o : Option (RfClonerRuntimeData H)) (w : World H R D)
      → AgreesIn H R D (whose w) o
      → IsSound H R D w
      → Fine w (poll H R D o w)
  poll-Fine none w a sound = (refl, sound)
  poll-Fine (some runtime) w a sound =
      let (r, s) = async_update_data H runtime.transport w.host in
      polled-Fine runtime r (record w { host = s }) a sound

  pub async_poll-Fine : (w : World H R D) → IsSound H R D w → Fine w (async_poll H R D w)
  unfolding async_poll
  async_poll-Fine w sound = poll-Fine w.runtime w sound sound

  kept-Fine :
      (w w' : World H R D)
      → whose w' ≡ whose w
      → w'.runtime ≡ w.runtime
      → IsSound H R D w
      → Fine w w'
  kept-Fine w w' same loaded sound = (same, rw (same, loaded) sound)

  updated_if-Fine :
      (same : Bool) (w w' : World H R D)
      → Fine w w'
      → IsSound H R D w
      → let ended : Result Bool × World H R D = if same then (ok false, w') else (ok true, w) in
        Fine w ended.1
  updated_if-Fine true w w' fine sound = fine
  updated_if-Fine false w w' fine sound = (refl, sound)

  updated-Fine :
      (runtime : RfClonerRuntimeData H) (w : World H R D) (b : Result (String × String))
      → IsSound H R D w
      → Fine w (updated H R D runtime w b).1
  updated-Fine runtime w (err e) sound = (refl, sound)
  updated-Fine runtime w (ok bound_to) sound =
      updated_if-Fine (same_binding bound_to runtime.bound_to) w (synced H R D runtime w)
        (kept-Fine w (synced H R D runtime w)
          (async_handle_entry_update-identity R runtime.status w.reconciler) refl sound)
        sound

  updated_in-Fine :
      (o : Option (RfClonerRuntimeData H)) (w : World H R D)
      → IsSound H R D w
      → Fine w (updated_in H R D o w).1
  updated_in-Fine none w sound = (refl, sound)
  updated_in-Fine (some runtime) w sound = updated-Fine runtime w (binding (entry_of w)) sound

  pub async_entry_updated-Fine :
      (w : World H R D) → IsSound H R D w → Fine w (async_entry_updated H R D w).1
  unfolding async_entry_updated
  async_entry_updated-Fine w sound = updated_in-Fine w.runtime w sound

  handle_status-Fine :
      (o : Option (RfClonerRuntimeData H)) (w : World H R D)
      → AgreesIn H R D (whose w) o
      → IsSound H R D w
      → Fine w (handle_status H R D o w)
  handle_status-Fine none w a sound = (refl, sound)
  handle_status-Fine (some runtime) w a sound =
      elim runtime.status
        as (λ o. Fine w (elim o as (λ _. World H R D) [
          | none ↦ w
          | some status ↦ follow_status H R D runtime status w
        ])) [
          | none ↦ (refl, sound)
          | some status ↦
              (follow_status-whose runtime status w, follow_status-IsSound H R D runtime status w a)
        ]

  pub async_handle_status-Fine :
      (w : World H R D) → IsSound H R D w → Fine w (async_handle_status H R D w)
  unfolding async_handle_status
  async_handle_status-Fine w sound = handle_status-Fine w.runtime w sound sound
