-- ===== src/Reconcile/Tests.antt =====
-- Reconciliations of the demonstration bridge.
use esphome_rf_cloner.Base.{
  ℕ, ℤ, pos, ◌+◌, ◌≡◌, ◌≢◌, refl, Bool, true, false, not, Option, some, none, String, List, [], ◌∷◌,
  ◌++◌, keep, map, ltb, ltb_ℤ, if◌then◌else◌, ◌==◌, string_eq, int_eq, ap, ◌∙◌, ==_self,
}
use esphome_rf_cloner.Base.Dict.{lookup}
use esphome_rf_cloner.Models.CommandInfo.{CommandInfo}
use esphome_rf_cloner.Models.BridgeStatus.{BridgeStatus}
use esphome_rf_cloner.Targets.{
  CommandMeta, RfTarget, command_meta, targets, is_dangling, options_pruned_to,
}
use esphome_rf_cloner.Targets.Prune.{survives}
use esphome_rf_cloner.Reconcile.{
  known_of, is_gone, unusable, reservation_time, async_reconcile, async_listed_commands,
  async_visible_commands, async_reserve, async_handle_entry_update, command_id_from_unique_id,
  command_unique_id,
}
use esphome_rf_cloner.Reconcile.UniqueId.{command_id_from_unique_id-command_unique_id}
use esphome_rf_cloner.Reconcile.Claims.{
  holds, unheld, async_visible_commands-unheld, async_visible_commands-async_reserve,
}
use esphome_rf_cloner.Reconcile.Purge.{UniqueEntities}
use esphome_rf_cloner.Reconcile.Settled.{
  ids_of, async_reconcile-foreign, async_reconcile-IsListing, async_reconcile_idem,
  async_handle_entry_update-keeps,
}
use esphome_rf_cloner.Demo.{
  bridge, entry, registry, registry-IsRegistry, records, reconciler, status_in,
}

command_id_from_unique_id-command_unique_id_example :
    command_id_from_unique_id "bridge-1" (command_unique_id "bridge-1" (pos 12)) ≡ some (pos 12)
command_id_from_unique_id-command_unique_id_example =
    command_id_from_unique_id-command_unique_id "bridge-1" (pos 12)

async_visible_commands-unheld_example :
    ((async_visible_commands registry 5 (some (status_in 3)) reconciler).0 ≡ (
      if unusable registry reconciler (status_in 3)
      then []
      else unheld 5 [] (status_in 3).commands))
    × ((name : String)
        → holds 5
            (async_visible_commands registry 5 (some (status_in 3)) reconciler).1.reserved
            name
          ≡ holds 5 [] name)
async_visible_commands-unheld_example =
    async_visible_commands-unheld registry 5 (status_in 3) reconciler

async_visible_commands-async_reserve_example :
    (async_visible_commands registry 5
      (some (status_in 3))
      (async_reserve registry 2 "power" reconciler)).0
    ≡ map
        (λ (c : CommandInfo). c.command_id)
        (keep
          (λ (c : CommandInfo).
            not (if c.name == "power" then ltb 5 (2 + reservation_time) else holds 5 [] c.name))
          (status_in 3).commands)
async_visible_commands-async_reserve_example =
    async_visible_commands-async_reserve registry 5 (status_in 3) reconciler 2 "power" refl

unique : UniqueEntities records
unfolding string_eq
unique = ((refl, (refl, tt)), ((refl, tt), (tt, tt)))

async_reconcile-IsListing_example :
    let m' = async_reconcile registry (status_in 3) reconciler in
    (m'.registry ≡ keep (λ r. not (is_gone bridge (ids_of (status_in 3)) r)) records)
    × ((k : ℤ)
        → lookup k (command_meta m'.entry)
          ≡ survives
              (some (ids_of (status_in 3)))
              none
              (targets entry)
              k
              (lookup k (command_meta entry)))
    × (m'.known_targets ≡ known_of entry)
    × (m'.heard ≡ 1 ∷ [])
async_reconcile-IsListing_example =
    async_reconcile-IsListing registry registry-IsRegistry reconciler (status_in 3) (refl, refl)
      unique

async_reconcile_idem_example :
    let m' = async_reconcile registry (status_in 3) reconciler in
    (options_pruned_to m'.entry (some (ids_of (status_in 3))) none ≡ none)
    × ((async_reconcile registry (status_in 3) m').entry ≡ m'.entry)
async_reconcile_idem_example = async_reconcile_idem registry reconciler (status_in 3) (refl, refl)

-- The status of other hardware.
abbrev other : BridgeStatus
other = record (status_in 3) { bridge_id = "bridge-2" }

differ : ◌==◌ {A = String} "bridge-2" "bridge-1" ≡ false
unfolding string_eq
differ = refl

other_differs : other.bridge_id ≢ "bridge-1"
other_differs h =
    let apart : ◌==◌ {A = String} "bridge-2" "bridge-1" ≡ false = differ in
    let same : ◌==◌ {A = String} "bridge-2" "bridge-1" ≡ true =
      ap (λ (b : String). b == "bridge-1") h ∙ ==_self {A = String} "bridge-1" in
    cc

async_reconcile-foreign_example :
    (async_reconcile registry other reconciler ≡ record reconciler { identity_mismatch = true })
    × ((later : Option BridgeStatus) (now : ℕ)
        → (async_listed_commands registry later (async_reconcile registry other reconciler) ≡ none)
          × ((async_visible_commands registry now later
                (async_reconcile registry other reconciler)).0
              ≡ []))
async_reconcile-foreign_example =
    async_reconcile-foreign registry reconciler other refl other_differs

abbrev fan : CommandMeta
fan = record { target_id = none; icon = some "mdi:fan" }

fan_found : lookup (pos 7) (command_meta entry) ≡ some fan
unfolding command_meta lookup string_eq esphome_rf_cloner.Targets.meta_from
    esphome_rf_cloner.Python.Decimal.parse_int esphome_rf_cloner.Python.Decimal.after_space
    esphome_rf_cloner.Python.Decimal.skip_space esphome_rf_cloner.Python.Decimal.is_int_space
    esphome_rf_cloner.Python.Decimal.read esphome_rf_cloner.Targets.from_stored
    esphome_rf_cloner.Base.Dict.insert int_eq
fan_found = refl

fan_placed : is_dangling (targets entry) fan ≡ false
unfolding is_dangling
fan_placed = refl

async_handle_entry_update-keeps_example :
    lookup
      (pos 7)
      (command_meta (async_handle_entry_update registry (some (status_in 3)) reconciler).entry)
    ≡ some fan
async_handle_entry_update-keeps_example =
    async_handle_entry_update-keeps registry reconciler (status_in 3) (pos 7) fan_found refl
      fan_placed
