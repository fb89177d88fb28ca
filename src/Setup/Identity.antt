-- ===== src/Setup/Identity.antt =====
-- A loaded bridge, its entry and its replica are of one identity.
use esphome_rf_cloner.Base.{
  String, ◌≡◌, refl, sym, ap, ◌∙◌, ◌⊎◌, inl, inr, Option, none, some, string_eq, arith,
}
use mathlib.Core.Path.{subst}
use esphome_rf_cloner.Python.Result.{Result}
use esphome_rf_cloner.Entry.{ConfigEntry}
use esphome_rf_cloner.Host.{Host}
use esphome_rf_cloner.Registry.{EntityRegistry}
use esphome_rf_cloner.Devices.{DeviceRegistry}
use esphome_rf_cloner.Models.BridgeStatus.{BridgeStatus}
use esphome_rf_cloner.Snapshot.{SnapshotManager, async_refresh}
use esphome_rf_cloner.Snapshot.Refresh.{Leaves, async_refresh-Leaves}
use esphome_rf_cloner.Reconcile.Kept.{identity, async_reconcile-identity}
use esphome_rf_cloner.Runtime.{RfClonerRuntimeData, World}
use esphome_rf_cloner.Setup.{adopted_as, adopted, identity_or, transport_to, follow_status}

-- The entry's identity. An entry whose identity is the empty text, which no bridge reports, has
-- none in the eyes of the code.
abbrev pub Owns : Option String → String → Type 0
Owns unique_id bridge_id = (unique_id ≡ some bridge_id) ⊎ (unique_id ≡ some "")

identity_or-Owns : (reported u : String) → Owns (some u) (identity_or reported (some u))
identity_or-Owns reported String.[] = inr refl
identity_or-Owns reported (String.◌∷◌ c s) = inl refl

adopted_as-Owns :
    (reported : String) (entry : ConfigEntry) (o : Option String)
    → entry.unique_id ≡ o
    → let known = adopted_as o reported entry in
      Owns known.unique_id (identity_or reported known.unique_id)
adopted_as-Owns reported entry none h = identity_or-Owns reported reported
adopted_as-Owns reported entry (some u) h =
    subst (λ v. Owns v (identity_or reported v)) (sym h) (identity_or-Owns reported u)

-- Setting an entry up settles whose bridge it is.
pub adopted-Owns :
    (reported : String) (entry : ConfigEntry)
    → let known = adopted reported entry in
      Owns known.unique_id (identity_or reported known.unique_id)
adopted-Owns reported entry = adopted_as-Owns reported entry entry.unique_id refl

adopted_as-kept :
    (reported : String) (entry : ConfigEntry) (o : Option String) {u : String}
    → entry.unique_id ≡ o
    → entry.unique_id ≡ some u
    → (adopted_as o reported entry).unique_id ≡ some u
adopted_as-kept reported entry none h k = absurd (ground arith)
adopted_as-kept reported entry (some v) h k = k

-- An identity that the entry has is not changed.
pub adopted-kept :
    (reported : String) (entry : ConfigEntry) {u : String}
    → entry.unique_id ≡ some u
    → (adopted reported entry).unique_id ≡ some u
adopted-kept reported entry k = adopted_as-kept reported entry entry.unique_id refl k

-- What a loaded bridge keeps true: the entry, the runtime data and the replica are of one identity,
-- and every call goes to the node that the runtime data says it is bound to.
pub record Agrees (H : Host) (unique_id : Option String) (runtime : RfClonerRuntimeData H)
    : Type 0 where
  pub owner : Owns unique_id runtime.bridge_id
  pub replica : runtime.snapshots.bridge_id ≡ runtime.bridge_id
  pub bound : runtime.transport ≡ transport_to runtime.bound_to
  pub calls : runtime.snapshots.transport ≡ runtime.transport

module _ (H : Host) (R : EntityRegistry) (D : DeviceRegistry) where
  abbrev pub AgreesIn : Option String → Option (RfClonerRuntimeData H) → Type 0
  AgreesIn unique_id none = Unit {0}
  AgreesIn unique_id (some runtime) = Agrees H unique_id runtime

  -- A world whose bridge, if it is loaded, is of one identity.
  abbrev pub IsSound : World H R D → Type 0
  IsSound w = AgreesIn (identity R w.reconciler) w.runtime

  Agrees-snapshots :
      (unique_id : Option String) (runtime : RfClonerRuntimeData H) (snapshots : SnapshotManager H)
      → snapshots.bridge_id ≡ runtime.snapshots.bridge_id
      → snapshots.transport ≡ runtime.snapshots.transport
      → Agrees H unique_id runtime
      → Agrees H unique_id (record runtime { snapshots = snapshots })
  Agrees-snapshots unique_id runtime snapshots same_bridge same_transport a = record {
    owner = a.owner;
    replica = same_bridge ∙ a.replica;
    bound = a.bound;
    calls = same_transport ∙ a.calls;
  }

  Leaves-kept :
      (status : BridgeStatus) (m : SnapshotManager H) (s : H.State)
      (ρ : Result (Unit {0}) × (SnapshotManager H × H.State))
      → Leaves H status m s ρ
      → (ρ.1.0.bridge_id ≡ m.bridge_id) × (ρ.1.0.transport ≡ m.transport)
  Leaves-kept status m s ρ (inl (same, calls)) = (
    ap (λ (n : SnapshotManager H). n.bridge_id) same,
    ap (λ (n : SnapshotManager H). n.transport) same,
  )
  Leaves-kept status m s ρ (inr (es, s₁, exported, wanted, fine, held, saved)) = (
    ap (λ (n : SnapshotManager H). n.bridge_id) held,
    ap (λ (n : SnapshotManager H). n.transport) held,
  )

  -- Following a status keeps a loaded bridge of one identity.
  pub follow_status-IsSound :
      (runtime : RfClonerRuntimeData H) (status : BridgeStatus) (w : World H R D)
      → Agrees H (identity R w.reconciler) runtime
      → IsSound (follow_status H R D runtime status w)
  unfolding follow_status
  follow_status-IsSound runtime status w a =
      let (bridge, transport) =
        Leaves-kept status runtime.snapshots w.host
          (async_refresh H status (runtime.snapshots, w.host))
          (async_refresh-Leaves H status runtime.snapshots w.host) in
      rw (async_reconcile-identity R status w.reconciler)
        (Agrees-snapshots (identity R w.reconciler) runtime _ bridge transport a)
