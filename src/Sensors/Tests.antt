-- ===== src/Sensors/Tests.antt =====
-- Tests of a bridge's own entities.
use esphome_rf_cloner.Base.{pos, ◌≡◌, refl, false, none, some, [], ◌∷◌, ◌++◌, All, map}
use esphome_rf_cloner.Python.Value.{int, str}
use esphome_rf_cloner.Reconcile.{is_gone}
use esphome_rf_cloner.Sensors.{
  RfBridgeEntity, RfBridgeSensorDescription, sensors, native_value, sensor_entities,
  binary_sensor_entities,
}
use esphome_rf_cloner.Button.{cancel_learn_button}
use esphome_rf_cloner.Sensors.Own.{bridge_entities-kept}
use esphome_rf_cloner.Demo.{bridge, status_in, record_of}

values_read :
    map (λ (d : RfBridgeSensorDescription). native_value d (some (status_in 3))) sensors
    ≡ some (int (pos 1))
      ∷ some (int (pos 0))
      ∷ some (str "captured")
      ∷ some (str "none")
      ∷ some (int (pos 8))
      ∷ []
unfolding native_value
values_read = refl

bridge_entities-kept_example :
    All
      (λ (e : RfBridgeEntity).
        is_gone bridge [] (record (record_of "sensor.state" "old" none) { unique_id = e.unique_id })
        ≡ false)
      (cancel_learn_button bridge ∷ sensor_entities bridge ++ binary_sensor_entities bridge)
bridge_entities-kept_example = bridge_entities-kept bridge [] (record_of "sensor.state" "old" none)
