-- ===== src/Devices/Area.antt =====
-- Which area a registration gives a target's device.
use esphome_rf_cloner.Base.{String, ◌≡◌, Option, none, some}
use esphome_rf_cloner.Devices.{DeviceEntry, DeviceRequest, DeviceRegistry, IsDeviceRegistry}

-- The target's area for a new device, else the area that the device has.
abbrev pub area_after : Option DeviceEntry → Option String → Option String
area_after none area = area
area_after (some device) area = device.area_id

module _ (R : DeviceRegistry) (law : IsDeviceRegistry R) where
  -- A registration has left the device in the area, and it is found there.
  abbrev Lies : DeviceRequest → Option String → DeviceEntry × R.State → Type 0
  Lies q area (device, s') =
      (device.area_id ≡ area) × (R.find s' q.identifier q.config_entry_id ≡ some device)
