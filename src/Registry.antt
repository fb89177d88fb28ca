-- ===== src/Registry.antt =====
-- Home Assistant's entity registry, as the integration uses it: a parameter of what calls it, with
-- its documented behaviour as laws.
use esphome_rf_cloner.Base.{
  String, ◌≡◌, not, Option, none, some, List, map, keep, if◌then◌else◌, ◌==◌, string_eq,
  option_string_eq,
}

-- `RegistryEntry`, as far as the integration reads it.
pub record RegistryEntry : Type 0 where
  pub entity_id : String
  pub unique_id : String
  pub config_subentry_id : Option String
  pub device_id : Option String

pub record EntityRegistry : Type 1 where
  pub State : Type 0
  -- `er.async_entries_for_config_entry`
  pub entries : State → String → List RegistryEntry
  -- `registry.async_remove`
  pub remove : String → State → State
  -- `registry.async_update_entity(entity_id, config_subentry_id=None, device_id=None)`
  pub detach : String → State → State
  -- What `config_entries.async_remove_subentry` does here, for a config entry and its subentry.
  pub clear_subentry : String → String → State → State

abbrev pub detached : RegistryEntry → RegistryEntry
detached r = record r { config_subentry_id = none; device_id = none }

-- A removal drops the record of that entity id, a detachment changes that record alone, and
-- removing a subentry of a config entry drops the records that belong to the subentry.
pub record IsRegistry (R : EntityRegistry) : Type 0 where
  pub entries-remove :
      (entity_id entry_id : String) (s : R.State)
      → R.entries (R.remove entity_id s) entry_id
        ≡ keep (λ r. not (r.entity_id == entity_id)) (R.entries s entry_id)
  pub entries-detach :
      (entity_id entry_id : String) (s : R.State)
      → R.entries (R.detach entity_id s) entry_id
        ≡ map (λ r. if r.entity_id == entity_id then detached r else r) (R.entries s entry_id)
  pub entries-clear_subentry :
      (subentry_id entry_id : String) (s : R.State)
      → R.entries (R.clear_subentry entry_id subentry_id s) entry_id
        ≡ keep (λ r. not (r.config_subentry_id == some subentry_id)) (R.entries s entry_id)
