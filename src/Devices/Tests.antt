-- ===== src/Devices/Tests.antt =====
-- A device registry that is a list, and a target whose device the user has moved.
use esphome_rf_cloner.Base.{String, some, none, [], ◌∷◌, string_eq}
use esphome_rf_cloner.Base.Dict.{Dict}
use esphome_rf_cloner.Targets.{RfTarget, target_device_identifier}
use esphome_rf_cloner.Devices.{DeviceEntry}
use esphome_rf_cloner.Demo.{bridge}

abbrev fan : RfTarget
fan = record {
  target_id = "t1";
  subentry_id = "s1";
  name = "Fan";
  target_type = "fan";
  area_id = some "hall";
}

-- The device is there, and the user has moved it to the garage.
abbrev moved_devices : Dict String DeviceEntry
moved_devices =
    (
      target_device_identifier bridge "t1",
      record { id = "d1"; area_id = some "garage"; via_device_id = none },
    )
    ∷ []
