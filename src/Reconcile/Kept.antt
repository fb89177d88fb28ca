-- ===== src/Reconcile/Kept.antt =====
-- What no operation of the reconciler changes: which entry it works for, and its identity.
use esphome_rf_cloner.Base.{
  ℕ, ℤ, String, ◌≡◌, refl, Bool, true, false, Option, none, some, List, [], if◌then◌else◌,
}
use esphome_rf_cloner.Base.Dict.{Dict}
use esphome_rf_cloner.Python.Value.{Value}
use esphome_rf_cloner.Registry.{EntityRegistry}
use esphome_rf_cloner.Models.BridgeStatus.{BridgeStatus}
use esphome_rf_cloner.Targets.{options_pruned_to}
use esphome_rf_cloner.Reconcile.{
  CommandReconciler, foreign, follow, async_reconcile, async_listed_commands,
  async_purge_removed_commands, async_snapshot_targets, async_notify, async_handle_entry_update,
  accepts_user_removals, handled, update_entry, next_of, async_visible_commands, visible_from,
  unusable,
}

module _ (R : EntityRegistry) where
  -- The identity that the reconciler's entry has adopted.
  abbrev pub identity : CommandReconciler R → Option String
  identity m = m.entry.unique_id

  update_entry-identity :
      (o : Option (Dict String Value)) (m : CommandReconciler R)
      → identity (update_entry R o m) ≡ identity m
  update_entry-identity none m = refl
  update_entry-identity (some options) m = refl

  follow-identity :
      (status : BridgeStatus) (m : CommandReconciler R) → identity (follow R status m) ≡ identity m
  unfolding follow async_purge_removed_commands async_snapshot_targets async_notify
  follow-identity status m = update_entry-identity _ _

  reconcile_if-identity :
      (apart partial : Bool) (status : BridgeStatus) (m : CommandReconciler R)
      → identity (
          if apart
          then record m { identity_mismatch = true }
          else if partial
          then record m { identity_mismatch = false }
          else follow R status (record m { identity_mismatch = false }))
        ≡ identity m
  reconcile_if-identity true partial status m = refl
  reconcile_if-identity false true status m = refl
  reconcile_if-identity false false status m =
      follow-identity status (record m { identity_mismatch = false })

  pub async_reconcile-identity :
      (status : BridgeStatus) (m : CommandReconciler R)
      → identity (async_reconcile R status m) ≡ identity m
  unfolding async_reconcile
  async_reconcile-identity status m =
      reconcile_if-identity (foreign m.entry.unique_id status.bridge_id) status.restore_incomplete
        status m

  handled-identity :
      (o : Option (Dict String Value)) (m : CommandReconciler R)
      → identity (handled R o m) ≡ identity m
  unfolding async_notify
  handled-identity none m = refl
  handled-identity (some options) m = refl

  handle_if-identity :
      (accepts : Bool) (status : Option BridgeStatus) (m : CommandReconciler R)
      → let seen = async_snapshot_targets R m in
        identity (elim accepts as (λ _. CommandReconciler R) [
          | false ↦ seen
          | true ↦
              handled R
                (options_pruned_to seen.entry
                  (async_listed_commands R status seen)
                  (next_of R status))
                seen
        ])
        ≡ identity m
  unfolding async_snapshot_targets
  handle_if-identity false status m = refl
  handle_if-identity true status m = handled-identity _ _

  pub async_handle_entry_update-identity :
      (status : Option BridgeStatus) (m : CommandReconciler R)
      → identity (async_handle_entry_update R status m) ≡ identity m
  unfolding async_handle_entry_update async_snapshot_targets
  async_handle_entry_update-identity status m =
      handle_if-identity (accepts_user_removals R m) status m

  shown-identity :
      (hides : Bool) (ids : List ℤ) (left : Dict String ℕ) (m : CommandReconciler R)
      → let shown : List ℤ × CommandReconciler R =
          if hides then ([], m) else (ids, record m { reserved = left }) in
        identity shown.1 ≡ identity m
  shown-identity true ids left m = refl
  shown-identity false ids left m = refl

  pub async_visible_commands-identity :
      (now : ℕ) (status : Option BridgeStatus) (m : CommandReconciler R)
      → identity (async_visible_commands R now status m).1 ≡ identity m
  unfolding async_visible_commands
  async_visible_commands-identity now none m = refl
  async_visible_commands-identity now (some status) m =
      let (ids, left) = visible_from now status.commands m.reserved in
      shown-identity (unusable R m status) ids left m
