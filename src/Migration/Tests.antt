-- ===== src/Migration/Tests.antt =====
-- A migration of an entry of 0.1.
use esphome_rf_cloner.Base.{◌≡◌, refl, [], ◌∷◌, map, none, string_eq, pos}
use esphome_rf_cloner.Entry.{ConfigEntry}
use esphome_rf_cloner.Reconcile.Purge.{UniqueEntities}
use esphome_rf_cloner.Migration.{command_subentry_ids, async_migrate_to_targets}
use esphome_rf_cloner.Migration.Kept.{retired, async_migrate_to_targets-retired}
use esphome_rf_cloner.Demo.{entry, registry, registry-IsRegistry, records}

-- The entry with a command's subentry, as 0.1 wrote it.
abbrev old_entry : ConfigEntry
old_entry = record entry {
  version = pos 1;
  subentries =
      record {
        subentry_id = "s1";
        subentry_type = "command";
        title = "power";
        unique_id = none;
        content = [];
      }
      ∷ [];
}

unique : UniqueEntities records
unfolding string_eq
unique = ((refl, (refl, tt)), ((refl, tt), (tt, tt)))

async_migrate_to_targets-retired_example :
    (async_migrate_to_targets registry (old_entry, records)).1
    ≡ map (retired (command_subentry_ids old_entry)) records
async_migrate_to_targets-retired_example =
    async_migrate_to_targets-retired registry registry-IsRegistry old_entry records unique
