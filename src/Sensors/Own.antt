-- ===== src/Sensors/Own.antt =====
-- A bridge's own entities are never taken for a command's.
use esphome_rf_cloner.Base.{
  ℤ, String, ◌≡◌, refl, ap, ◌∙◌, Bool, false, not, contains, int_eq, none, some, List, ◌∷◌, All,
  ◌++◌,
}
use esphome_rf_cloner.Python.Decimal.{parse_int, after_space, skip_space, is_int_space, read}
use esphome_rf_cloner.Registry.{RegistryEntry}
use esphome_rf_cloner.Reconcile.{prefix, read_id, command_id_from_unique_id, is_gone}
use esphome_rf_cloner.Button.{cancel_learn_button}
use esphome_rf_cloner.Reconcile.UniqueId.{after_prefix-append}
use esphome_rf_cloner.Sensors.{RfBridgeEntity, new_entity, sensor_entities, binary_sensor_entities}

read_key :
    (bridge_id key : String)
    → parse_int key ≡ none
    → command_id_from_unique_id bridge_id (new_entity bridge_id key).unique_id ≡ none
unfolding command_id_from_unique_id new_entity
read_key bridge_id key h = ap read_id (after_prefix-append (prefix bridge_id) key) ∙ h

-- An entity whose key is no number is not taken for a command that is gone.
kept_key :
    (bridge_id key : String) (listed : List ℤ) (r : RegistryEntry)
    → parse_int key ≡ none
    → is_gone bridge_id listed (record r { unique_id = (new_entity bridge_id key).unique_id })
      ≡ false
unfolding is_gone
kept_key bridge_id key listed r h =
    ap (λ o. elim o as (λ _. Bool) [ none ↦ false | some k ↦ not (contains listed k) ])
      (read_key bridge_id key h)

-- Whatever the bridge lists, and whatever else the entity registry records of them, the bridge's own
-- sensors, problem indicators and cancel button are never among the records that a reconciliation
-- drops.
pub bridge_entities-kept :
    (bridge_id : String) (listed : List ℤ) (r : RegistryEntry)
    → All
        (λ (e : RfBridgeEntity).
          is_gone bridge_id listed (record r { unique_id = e.unique_id }) ≡ false)
        (cancel_learn_button bridge_id ∷ sensor_entities bridge_id
          ++ binary_sensor_entities bridge_id)
unfolding sensor_entities binary_sensor_entities parse_int after_space skip_space is_int_space read
bridge_entities-kept b listed r =
    let kept = kept_key b in
    (
      kept "cancel_learn" listed r refl,
      (
        kept "command_count" listed r refl,
        (
          kept "storage_used" listed r refl,
          (
            kept "learn_state" listed r refl,
            (
              kept "last_result" listed r refl,
              (
                kept "revision" listed r refl,
                (kept "read_only" listed r refl, (kept "restore_incomplete" listed r refl, tt)),
              ),
            ),
          ),
        ),
      ),
    )
