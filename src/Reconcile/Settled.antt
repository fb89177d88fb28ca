-- ===== src/Reconcile/Settled.antt =====
-- What a reconciliation and an entry update leave of Home Assistant's organisation.
use esphome_rf_cloner.Base.{
  ℕ, ℤ, String, ◌≡◌, ◌≢◌, refl, ap, ◌∙◌, Bool, true, false, not, Option, none, some, List, [], ◌++◌,
  map, keep, if◌then◌else◌, string_eq, int_eq, arith, ltb_ℤ,
}
use esphome_rf_cloner.Base.Dict.{Dict, lookup, values}
use esphome_rf_cloner.Python.Value.{Value}
use esphome_rf_cloner.Entry.{ConfigEntry}
use esphome_rf_cloner.Registry.{EntityRegistry, IsRegistry}
use esphome_rf_cloner.Models.CommandInfo.{CommandInfo}
use esphome_rf_cloner.Models.BridgeStatus.{BridgeStatus}
use esphome_rf_cloner.Targets.{
  CommandMeta, RfTarget, targets, command_meta, options_pruned_to, is_stale, is_dangling,
}
use esphome_rf_cloner.Targets.Prune.{
  survives, written, prune, command_meta-prune, prune_idem, targets-prune,
}
use esphome_rf_cloner.Reconcile.{
  CommandReconciler, known_of, is_gone, spend, foreign, follow, async_reconcile,
  async_listed_commands, async_visible_commands, async_purge_removed_commands,
  async_snapshot_targets, async_notify, async_handle_entry_update, accepts_user_removals, handled,
  update_entry, next_of, purge_each,
}
use esphome_rf_cloner.Reconcile.Purge.{UniqueEntities, purge_each-listed}

abbrev pub ids_of : BridgeStatus → List ℤ
ids_of status = map (λ (c : CommandInfo). c.command_id) status.commands

foreign_ne : (a b : String) → b ≢ a → foreign (some a) b ≡ true
foreign_ne a b h = ground arith

foreign_self : (a : String) → foreign (some a) a ≡ false
foreign_self a = ground arith

module _ (R : EntityRegistry) where
  hidden :
      (m : CommandReconciler R) (later : Option BridgeStatus) (now : ℕ)
      → let gone = record m { identity_mismatch = true } in
        (async_listed_commands R later gone ≡ none)
        × ((async_visible_commands R now later gone).0 ≡ [])
  unfolding async_listed_commands async_visible_commands
  hidden m none now = (refl, refl)
  hidden m (some status) now = (refl, refl)

  -- Hardware that reports another identity changes nothing but the flag. From then on no status is
  -- taken for a listing, and the platforms are shown no command, until a reconciliation lifts the
  -- flag.
  pub async_reconcile-foreign :
      (m : CommandReconciler R) (status : BridgeStatus) {expected : String}
      → m.entry.unique_id ≡ some expected
      → status.bridge_id ≢ expected
      → (async_reconcile R status m ≡ record m { identity_mismatch = true })
        × ((later : Option BridgeStatus) (now : ℕ)
            → (async_listed_commands R later (async_reconcile R status m) ≡ none)
              × ((async_visible_commands R now later (async_reconcile R status m)).0 ≡ []))
  unfolding async_reconcile
  async_reconcile-foreign m status {expected} adopted differs =
      let apart : foreign m.entry.unique_id status.bridge_id ≡ true =
        rw adopted (foreign_ne expected status.bridge_id differs) in
      rw apart (refl, hidden m)

  -- A status from which a listing is taken: one of the adopted identity, and complete.
  abbrev pub IsListing : CommandReconciler R → BridgeStatus → Type 0
  IsListing m status =
      (m.entry.unique_id ≡ some status.bridge_id) × (status.restore_incomplete ≡ false)

  abbrev Written : Option (Dict String Value) → CommandReconciler R → CommandReconciler R → Type 0
  Written o m m' =
      (m'.entry ≡ written m.entry o)
      × (m'.registry ≡ m.registry)
      × (m'.listeners ≡ m.listeners)
      × (m'.heard ≡ m.heard)

  update_entry-Written :
      (o : Option (Dict String Value)) (m : CommandReconciler R) → Written o m (update_entry R o m)
  update_entry-Written none m = (refl, refl, refl, refl)
  update_entry-Written (some options) m = (refl, refl, refl, refl)

  -- What following a status has left.
  abbrev Followed : BridgeStatus → CommandReconciler R → CommandReconciler R → Type 0
  Followed status m m' =
      (m'.entry ≡ prune (some (ids_of status)) none m.entry)
      × (R.entries m'.registry m.entry.entry_id
          ≡ R.entries
              (purge_each R status.bridge_id (ids_of status) (R.entries m.registry m.entry.entry_id)
                m.registry)
              m.entry.entry_id)
      × (m'.known_targets ≡ known_of m.entry)
      × (m'.heard ≡ m.heard ++ m.listeners)

  known_of-prune :
      (ids : List ℤ) (entry : ConfigEntry) → known_of (prune (some ids) none entry) ≡ known_of entry
  known_of-prune ids entry =
      ap (λ known. map (λ (target : RfTarget). target.subentry_id) (values known))
        (targets-prune (some ids) none entry)

  abbrev pub trusted : CommandReconciler R → CommandReconciler R
  trusted m = record m { identity_mismatch = false }

  follow-Followed :
      (m : CommandReconciler R) (status : BridgeStatus)
      → IsListing m status
      → Followed status m (follow R status (trusted m))
  unfolding follow async_listed_commands async_purge_removed_commands async_snapshot_targets
      async_notify
  follow-Followed m status listing =
      let spent = record (trusted m) { reserved = spend status.commands m.reserved } in
      let kept = async_purge_removed_commands R (some (ids_of status)) spent in
      let (entry, registry, listeners, heard) =
        update_entry-Written (options_pruned_to m.entry (some (ids_of status)) none) kept in
      rw listing.1 (
        entry,
        ap (λ g. R.entries g m.entry.entry_id) registry ∙ rw listing.0 refl,
        ap known_of entry ∙ known_of-prune (ids_of status) m.entry,
        rw (heard, listeners) refl,
      )

  async_reconcile-follow :
      (m : CommandReconciler R) (status : BridgeStatus)
      → IsListing m status
      → async_reconcile R status m ≡ follow R status (trusted m)
  unfolding async_reconcile
  async_reconcile-follow m status listing =
      rw (listing.0, listing.1, foreign_self status.bridge_id) refl

  -- Following a listing of the adopted bridge, the entity registry keeps of the entry's records
  -- exactly those of listed commands and of no command; each command's organisation is what
  -- survives of it; the targets are remembered, and every listener is told once. No two records of
  -- the entry may have one entity id.
  pub async_reconcile-IsListing :
      (law : IsRegistry R) (m : CommandReconciler R) (status : BridgeStatus)
      → IsListing m status
      → UniqueEntities (R.entries m.registry m.entry.entry_id)
      → let m' = async_reconcile R status m in
        (R.entries m'.registry m.entry.entry_id
          ≡ keep
              (λ r. not (is_gone status.bridge_id (ids_of status) r))
              (R.entries m.registry m.entry.entry_id))
        × ((k : ℤ)
            → lookup k (command_meta m'.entry)
              ≡ survives
                  (some (ids_of status))
                  none
                  (targets m.entry)
                  k
                  (lookup k (command_meta m.entry)))
        × (m'.known_targets ≡ known_of m.entry)
        × (m'.heard ≡ m.heard ++ m.listeners)
  async_reconcile-IsListing law m status listing unique =
      let (entry, registry, known, heard) = follow-Followed m status listing in
      rw (async_reconcile-follow m status listing) (
        registry
            ∙ purge_each-listed R law status.bridge_id (ids_of status) m.registry m.entry.entry_id
                unique,
        (λ k.
            ap (λ e. lookup k (command_meta e)) entry
            ∙ command_meta-prune (some (ids_of status)) none m.entry k),
        known,
        heard,
      )

  followed_entry :
      (m : CommandReconciler R) (status : BridgeStatus)
      → IsListing m status
      → (async_reconcile R status m).entry ≡ prune (some (ids_of status)) none m.entry
  followed_entry m status listing =
      ap (λ (n : CommandReconciler R). n.entry) (async_reconcile-follow m status listing)
      ∙ (follow-Followed m status listing).0

  written-unique_id :
      (entry : ConfigEntry) (o : Option (Dict String Value))
      → (written entry o).unique_id ≡ entry.unique_id
  written-unique_id entry none = refl
  written-unique_id entry (some options) = refl

  still-IsListing :
      (m : CommandReconciler R) (status : BridgeStatus)
      → IsListing m status
      → IsListing (async_reconcile R status m) status
  still-IsListing m status listing = (
    ap (λ (e : ConfigEntry). e.unique_id) (followed_entry m status listing)
        ∙ written-unique_id m.entry (options_pruned_to m.entry (some (ids_of status)) none)
        ∙ listing.0,
    listing.1,
  )

  -- Once a listing has been followed, the entry has no metadata left that the same listing would
  -- change: pruning by it finds nothing to write, so the same status again leaves the entry as it
  -- is.
  pub async_reconcile_idem :
      (m : CommandReconciler R) (status : BridgeStatus)
      → IsListing m status
      → let m' = async_reconcile R status m in
        (options_pruned_to m'.entry (some (ids_of status)) none ≡ none)
        × ((async_reconcile R status m').entry ≡ m'.entry)
  async_reconcile_idem m status listing =
      let once = followed_entry m status listing in
      let settled : options_pruned_to (async_reconcile R status m).entry (some (ids_of status)) none
          ≡ none =
        rw once (prune_idem (some (ids_of status)) none m.entry) in
      (
        settled,
        followed_entry (async_reconcile R status m) status (still-IsListing m status listing)
            ∙ ap (written (async_reconcile R status m).entry) settled,
      )

  -- What an entry update may write.
  handled-entry :
      (o : Option (Dict String Value)) (m : CommandReconciler R)
      → (handled R o m).entry ≡ written m.entry o
  unfolding async_notify
  handled-entry none m = refl
  handled-entry (some options) m = refl

  updated_if :
      (accepts : Bool) (status : Option BridgeStatus) (m : CommandReconciler R)
      → let seen = async_snapshot_targets R m in
        (elim accepts as (λ _. CommandReconciler R) [
          | false ↦ seen
          | true ↦
              handled R
                (options_pruned_to seen.entry
                  (async_listed_commands R status seen)
                  (next_of R status))
                seen
        ]).entry
        ≡ (if accepts
            then prune (async_listed_commands R status m) (next_of R status) m.entry
            else m.entry)
  unfolding async_snapshot_targets async_listed_commands
  updated_if false status m = refl
  updated_if true none m = handled-entry _ (async_snapshot_targets R m)
  updated_if true (some status) m = handled-entry _ (async_snapshot_targets R m)

  async_handle_entry_update-entry :
      (status : Option BridgeStatus) (m : CommandReconciler R)
      → (async_handle_entry_update R status m).entry ≡ (
          if accepts_user_removals R m
          then prune (async_listed_commands R status m) (next_of R status) m.entry
          else m.entry)
  unfolding async_handle_entry_update
  async_handle_entry_update-entry status m = updated_if (accepts_user_removals R m) status m

  not_stale :
      (listed : Option (List ℤ)) (next k : ℤ)
      → ltb_ℤ k next ≡ false
      → is_stale listed (some next) k ≡ false
  unfolding is_stale
  not_stale none next k h = refl
  not_stale (some ids) next k h = ground arith

  kept_if :
      (accepts : Bool) (listed : Option (List ℤ)) (next k : ℤ) (entry : ConfigEntry)
      (meta : CommandMeta)
      → lookup k (command_meta entry) ≡ some meta
      → is_stale listed (some next) k ≡ false
      → is_dangling (targets entry) meta ≡ false
      → lookup k (command_meta (if accepts then prune listed (some next) entry else entry))
        ≡ some meta
  kept_if false listed next k entry meta found fresh placed = found
  kept_if true listed next k entry meta found fresh placed =
      command_meta-prune listed (some next) entry k ∙ rw (found, fresh, placed) refl

  -- An update of the entry, handled with a status that the coordinator read earlier, keeps the
  -- metadata of every command which that read could not have listed, its id being no less than the
  -- status's next id, as long as the target that it is assigned to exists.
  pub async_handle_entry_update-keeps :
      (m : CommandReconciler R) (status : BridgeStatus) (k : ℤ) {meta : CommandMeta}
      → lookup k (command_meta m.entry) ≡ some meta
      → ltb_ℤ k status.next_command_id ≡ false
      → is_dangling (targets m.entry) meta ≡ false
      → lookup k (command_meta (async_handle_entry_update R (some status) m).entry) ≡ some meta
  async_handle_entry_update-keeps m status k {meta} found newer placed =
      rw (async_handle_entry_update-entry (some status) m) (
        kept_if (accepts_user_removals R m) (async_listed_commands R (some status) m)
          status.next_command_id k m.entry meta found
          (not_stale (async_listed_commands R (some status) m) status.next_command_id k newer)
          placed)
