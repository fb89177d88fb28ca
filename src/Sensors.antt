-- ===== src/Sensors.antt =====
-- custom_components/rf_cloner/sensor.py, binary_sensor.py and the bridge's entities of entity.py:
-- what a bridge's own entities show. How Home Assistant draws them is left out.
pub mod Own
mod Tests
use Prim.Native.String.{◌++◌}
use esphome_rf_cloner.Base.{
  ℤ, String, Bool, true, false, ◌&&◌, Option, none, some, List, [], ◌∷◌, map, if◌then◌else◌, ◌==◌,
  string_eq,
}
use esphome_rf_cloner.Base.Dict.{Dict}
use esphome_rf_cloner.Python.Text.{is_empty}
use esphome_rf_cloner.Python.Value.{Value, int, str}
use esphome_rf_cloner.Host.{Host}
use esphome_rf_cloner.Models.BridgeStatus.{BridgeStatus}
use esphome_rf_cloner.Transport.{BridgeTransport, available}

-- `RfBridgeSensorDescription`; `enabled` is `entity_registry_enabled_default`, `options` those of an
-- enumeration, and `diagnostic` whether that is the entity's category.
pub record RfBridgeSensorDescription : Type 0 where
  pub key : String
  pub options : Option (List String)
  pub diagnostic : Bool
  pub enabled : Bool
  pub value : BridgeStatus → Value

-- `SENSORS`
abbrev pub sensors : List RfBridgeSensorDescription
sensors =
    record {
      key = "command_count";
      options = none;
      diagnostic = false;
      enabled = true;
      value = λ status. int status.count;
    }
    ∷ record {
      key = "storage_used";
      options = none;
      diagnostic = true;
      enabled = false;
      value = λ status. int status.used_bytes;
    }
    ∷ record {
      key = "learn_state";
      options = some ("idle" ∷ "armed" ∷ "captured" ∷ "failed" ∷ "unknown" ∷ []);
      diagnostic = true;
      enabled = true;
      value = λ status. str status.state;
    }
    ∷ record {
      key = "last_result";
      options = none;
      diagnostic = true;
      enabled = true;
      value = λ status. str (if is_empty status.last_result then "none" else status.last_result);
    }
    ∷ record {
      key = "revision";
      options = none;
      diagnostic = true;
      enabled = false;
      value = λ status. int status.revision;
    }
    ∷ []

pub record RfBridgeBinarySensorDescription : Type 0 where
  pub key : String
  pub value : BridgeStatus → Bool

-- `BINARY_SENSORS`
abbrev pub binary_sensors : List RfBridgeBinarySensorDescription
binary_sensors =
    record { key = "read_only"; value = λ status. status.read_only }
    ∷ record { key = "restore_incomplete"; value = λ status. status.restore_incomplete }
    ∷ []

-- `RfBridgeEntity`, with the identifier of the device that it is on.
pub record RfBridgeEntity : Type 0 where
  pub unique_id : String
  pub translation_key : String
  pub device : String

-- `RfBridgeEntity.__init__`
unfoldable pub new_entity : String → String → RfBridgeEntity
new_entity bridge_id key = record {
  unique_id = (bridge_id ++ "_") ++ key;
  translation_key = key;
  device = bridge_id;
}

-- The entities that the set-up of the two platforms adds.
unfoldable pub sensor_entities : String → List RfBridgeEntity
unfolding new_entity
sensor_entities bridge_id =
    map (λ (d : RfBridgeSensorDescription). new_entity bridge_id d.key) sensors

unfoldable pub binary_sensor_entities : String → List RfBridgeEntity
unfolding new_entity
binary_sensor_entities bridge_id =
    map (λ (d : RfBridgeBinarySensorDescription). new_entity bridge_id d.key) binary_sensors

-- `RfBridgeSensor.native_value`
unfoldable pub native_value : RfBridgeSensorDescription → Option BridgeStatus → Option Value
native_value description none = none
native_value description (some status) = some (description.value status)

-- `RfBridgeBinarySensor.is_on`
unfoldable pub is_on : RfBridgeBinarySensorDescription → Option BridgeStatus → Option Bool
is_on description none = none
is_on description (some status) = some (description.value status)

-- `RfBridgeBinarySensor.extra_state_attributes`
unfoldable pub extra_state_attributes :
    RfBridgeBinarySensorDescription → Option BridgeStatus → Option (Dict String String)
extra_state_attributes description none = none
extra_state_attributes description (some status) =
    if description.key == "read_only" then some (("fault", status.fault) ∷ []) else none

-- `RfBridgeEntity.available`, where `polled` is what the coordinator's entity answers.
unfoldable pub is_available : (H : Host) → Bool → BridgeTransport → H.State → Bool
unfolding available
is_available H polled t s = polled && available H t s
