-- ===== src/Migration.antt =====
-- custom_components/rf_cloner/migration.py: from the command subentries of 0.1 to targets. Logging
-- is not modelled.
pub mod Kept
mod Tests
use esphome_rf_cloner.Base.{
  ℤ, pos, String, Bool, true, false, not, Option, some, List, [], ◌∷◌, keep, map, if◌then◌else◌,
  ◌==◌, contains, string_eq, option_string_eq, ltb_ℤ,
}
use esphome_rf_cloner.Const.{entry_version, entry_minor_version, subentry_type_command}
use esphome_rf_cloner.Entry.{ConfigEntry, ConfigSubentry}
use esphome_rf_cloner.Registry.{RegistryEntry, EntityRegistry}

-- The `command_subentry_ids` of `_async_migrate_to_targets`.
abbrev pub command_subentry_ids : ConfigEntry → List String
command_subentry_ids entry =
    map (λ (subentry : ConfigSubentry). subentry.subentry_id)
      (keep (λ (subentry : ConfigSubentry). subentry.subentry_type == subentry_type_command)
        entry.subentries)

-- `record.config_subentry_id in retiring`
abbrev pub is_retiring : List String → RegistryEntry → Bool
is_retiring ids r = contains (map (λ (id : String). some id) ids) r.config_subentry_id

-- The subentries that removing one leaves.
abbrev pub without : String → ConfigEntry → ConfigEntry
without subentry_id entry = record entry {
  subentries =
      keep (λ (subentry : ConfigSubentry). not (subentry.subentry_id == subentry_id))
        entry.subentries;
}

module _ (R : EntityRegistry) where
  -- The loop that detaches.
  unfoldable pub detach_each : List String → List RegistryEntry → R.State → R.State
  detach_each ids [] s = s
  detach_each ids (r ∷ rs) s =
      detach_each ids rs (if is_retiring ids r then R.detach r.entity_id s else s)

  -- The loop of `async_remove_subentry`.
  unfoldable pub remove_each : List String → ConfigEntry × R.State → ConfigEntry × R.State
  remove_each [] (entry, s) = (entry, s)
  remove_each (id ∷ ids) (entry, s) =
      remove_each ids (without id entry, R.clear_subentry entry.entry_id id s)

  -- `_async_migrate_to_targets`. With no command subentry there is nothing to detach or remove.
  unfoldable pub async_migrate_to_targets : ConfigEntry × R.State → ConfigEntry × R.State
  unfolding detach_each remove_each
  async_migrate_to_targets (entry, s) = elim (command_subentry_ids entry) [
    | [] ↦ (entry, s)
    | id ∷ ids ↦
        remove_each (id ∷ ids) (entry, detach_each (id ∷ ids) (R.entries s entry.entry_id) s)
  ]

  abbrev stamped : ConfigEntry × R.State → Bool × (ConfigEntry × R.State)
  stamped (entry, s) =
      (true, (record entry { version = entry_version; minor_version = entry_minor_version }, s))

  -- `async_migrate_entry`
  unfoldable pub async_migrate_entry : ConfigEntry × R.State → Bool × (ConfigEntry × R.State)
  unfolding async_migrate_to_targets
  async_migrate_entry (entry, s) =
      if ltb_ℤ entry_version entry.version
      then (false, (entry, s))
      else stamped
          (if ltb_ℤ entry.version (pos 2) then async_migrate_to_targets (entry, s) else (entry, s))
