-- ===== src/Setup/Foreign.antt =====
-- What a poll that reads other hardware leaves alone.
use mathlib.Core.Path.{subst}
use esphome_rf_cloner.Base.{String, ◌≡◌, ◌≢◌, refl, ap, ◌∙◌, true, Option, some, inl, inr, arith}
use esphome_rf_cloner.Python.Result.{Result, ok}
use esphome_rf_cloner.Host.{Host}
use esphome_rf_cloner.Registry.{EntityRegistry}
use esphome_rf_cloner.Devices.{DeviceRegistry}
use esphome_rf_cloner.Models.BridgeStatus.{BridgeStatus}
use esphome_rf_cloner.Snapshot.Refresh.{async_refresh-unchanged}
use esphome_rf_cloner.Coordinator.{async_update_data}
use esphome_rf_cloner.Reconcile.Settled.{async_reconcile-foreign}
use esphome_rf_cloner.Runtime.{RfClonerRuntimeData, World, entry_of}
use esphome_rf_cloner.Setup.{follow_status, async_poll, poll, polled}
use esphome_rf_cloner.Setup.Identity.{Owns, IsSound, Agrees, AgreesIn}

module _ (H : Host) (R : EntityRegistry) (D : DeviceRegistry) where
  -- What a poll that read this status from other hardware leaves.
  abbrev pub AfterForeign :
      RfClonerRuntimeData H → BridgeStatus → H.State → World H R D → World H R D
  AfterForeign runtime status s w = record w {
    host = s;
    reconciler = record w.reconciler { identity_mismatch = true };
    runtime = some (record runtime { status = some status });
  }

  follow_status-foreign :
      (runtime : RfClonerRuntimeData H) (status : BridgeStatus) (w : World H R D)
      {expected : String}
      → (entry_of w).unique_id ≡ some expected
      → runtime.snapshots.bridge_id ≡ expected
      → status.bridge_id ≢ expected
      → follow_status H R D runtime status w ≡ record w {
        reconciler = record w.reconciler { identity_mismatch = true };
        runtime = some runtime;
      }
  unfolding follow_status
  follow_status-foreign runtime status w {expected} adopted replica differs =
      rw
        (
          (async_reconcile-foreign R w.reconciler status adopted differs).0,
          async_refresh-unchanged H status runtime.snapshots w.host
              (inl (λ same. differs (same ∙ replica))),
        )
        refl

  owned :
      (unique_id : Option String) (bridge_id : String) {expected : String}
      → Owns unique_id bridge_id
      → unique_id ≡ some expected
      → expected ≢ ""
      → bridge_id ≡ expected
  owned unique_id bridge_id (inl own) adopted named = ground arith
  owned unique_id bridge_id (inr own) adopted named = absurd (ground arith)

  poll-foreign :
      (runtime : RfClonerRuntimeData H) (w : World H R D) (status : BridgeStatus) (s : H.State)
      {expected : String}
      → Agrees H (entry_of w).unique_id runtime
      → (entry_of w).unique_id ≡ some expected
      → expected ≢ ""
      → async_update_data H runtime.transport w.host ≡ (ok status, s)
      → status.bridge_id ≢ expected
      → poll H R D (some runtime) w ≡ AfterForeign runtime status s w
  poll-foreign runtime w status s {expected} a adopted named read differs =
      ap (λ (ρ : Result BridgeStatus × H.State). polled H R D runtime ρ.0 (record w { host = ρ.1 }))
        read
      ∙ follow_status-foreign (record runtime { status = some status }) status
          (record w { host = s }) adopted
          (a.replica ∙ owned (entry_of w).unique_id runtime.bridge_id a.owner adopted named) differs

  -- Where the node that a loaded, sound bridge points at reports another identity than the entry's
  -- nonempty one, a poll changes three things: the mismatch flag, the status last read, and what reading
  -- it did to the host. The entry, the entity registry, the devices, the claims and the replica,
  -- stored or held, are as they were, and nobody is notified.
  pub async_poll-foreign :
      (w : World H R D) (status : BridgeStatus) (s : H.State) {runtime : RfClonerRuntimeData H}
      {expected : String}
      → IsSound H R D w
      → w.runtime ≡ some runtime
      → (entry_of w).unique_id ≡ some expected
      → expected ≢ ""
      → async_update_data H runtime.transport w.host ≡ (ok status, s)
      → status.bridge_id ≢ expected
      → async_poll H R D w ≡ AfterForeign runtime status s w
  unfolding async_poll
  async_poll-foreign w status s {runtime} sound on adopted named read differs =
      ap (λ o. poll H R D o w) on
      ∙ poll-foreign runtime w status s (subst (AgreesIn H R D (entry_of w).unique_id) on sound)
          adopted named read differs
