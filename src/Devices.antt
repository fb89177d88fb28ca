-- ===== src/Devices.antt =====
-- custom_components/rf_cloner/devices.py: the devices of the targets. The device registry is a
-- parameter; the manufacturer and the serial number that it is given are left out.
pub mod Area
mod Tests
use esphome_rf_cloner.Base.{
  String, ◌≡◌, Bool, true, false, ◌&&◌, Option, none, some, if◌then◌else◌, ◌==◌, option_string_eq,
  List, [], ◌∷◌,
}
use esphome_rf_cloner.Base.Dict.{values}
use esphome_rf_cloner.Python.Result.{Result, ok, err, assertion_error}
use esphome_rf_cloner.Python.Exec.{Exec}
use esphome_rf_cloner.Const.{device_model}
use esphome_rf_cloner.Entry.{ConfigEntry}
use esphome_rf_cloner.Targets.{RfTarget, targets, target_model, target_device_identifier}

-- `DeviceEntry`, as far as the integration reads it.
pub record DeviceEntry : Type 0 where
  pub id : String
  pub area_id : Option String
  pub via_device_id : Option String

-- What `async_get_or_create` is given, less the domain and the manufacturer.
pub record DeviceRequest : Type 0 where
  pub config_entry_id : String
  pub config_subentry_id : Option String
  pub identifier : String
  pub name : String
  pub model : String
  pub via_device_id : Option String

pub record DeviceRegistry : Type 1 where
  pub State : Type 0
  -- `async_get_device_by_identifier`, of an identifier and a config entry
  pub find : State → String → String → Option DeviceEntry
  -- `async_get_or_create`
  pub get_or_create : DeviceRequest → State → DeviceEntry × State
  -- `async_update_device(id, area_id=…)`
  pub set_area : String → Option String → State → Option DeviceEntry × State
  -- `async_update_device(id, via_device_id=…)`
  pub set_via : String → String → State → Option DeviceEntry × State
  -- `async_get_device_by_connection` of `format_mac` of a network address, and a config entry
  pub find_by_mac : State → String → String → Option DeviceEntry

-- Getting a device that is there leaves it in the area that it has, and a device that is created
-- has no area; a device that was just got is found as it was got, and can be given an area, in which
-- it is found then.
pub record IsDeviceRegistry (R : DeviceRegistry) : Type 0 where
  pub get-found :
      (q : DeviceRequest) (s : R.State) (d : DeviceEntry)
      → R.find s q.identifier q.config_entry_id ≡ some d
      → (R.get_or_create q s).0.area_id ≡ d.area_id
  pub get-created :
      (q : DeviceRequest) (s : R.State)
      → R.find s q.identifier q.config_entry_id ≡ none
      → (R.get_or_create q s).0.area_id ≡ none
  pub set_area-created :
      (q : DeviceRequest) (s : R.State) (area : Option String)
      → let (d, s') = R.get_or_create q s in
        (d' : DeviceEntry) × ((R.set_area d.id area s').0 ≡ some d')
        × (d'.area_id ≡ area)
        × (R.find (R.set_area d.id area s').1 q.identifier q.config_entry_id ≡ some d')
  pub find-got :
      (q : DeviceRequest) (s : R.State)
      → let (d, s') = R.get_or_create q s in R.find s' q.identifier q.config_entry_id ≡ some d

abbrev pub is_none {ℓ} : {A : Type ℓ} → Option A → Bool
is_none none = true
is_none (some a) = false

abbrev pub request : ConfigEntry → String → String → RfTarget → DeviceRequest
request entry bridge_id bridge_device_id target = record {
  config_entry_id = entry.entry_id;
  config_subentry_id = some target.subentry_id;
  identifier = target_device_identifier bridge_id target.target_id;
  name = target.name;
  model = target_model target.target_type;
  via_device_id = some bridge_device_id;
}

module _ (R : DeviceRegistry) where
  abbrev updated : DeviceEntry → Option DeviceEntry → DeviceEntry
  updated device none = device
  updated device (some other) = other

  -- The area of a target that is new, if it has one and the device has none.
  abbrev pub placed : Bool → Option String → DeviceEntry × R.State → DeviceEntry × R.State
  placed is_new none (device, s) = (device, s)
  placed is_new (some area_id) (device, s) =
      let (answer, s') = R.set_area device.id (some area_id) s in
      elim (is_new && is_none device.area_id) [
        | true ↦ (updated device answer, s')
        | false ↦ (device, s)
      ]

  -- `async_register_target_device`
  unfoldable pub async_register_target_device :
      ConfigEntry → String → String → RfTarget → R.State → DeviceEntry × R.State
  async_register_target_device entry bridge_id bridge_device_id target s =
      let q = request entry bridge_id bridge_device_id target in
      placed (is_none (R.find s q.identifier q.config_entry_id)) target.area_id
        (R.get_or_create q s)

  abbrev register_each : ConfigEntry → String → String → List RfTarget → R.State → R.State
  register_each entry bridge_id bridge_device_id [] s = s
  register_each entry bridge_id bridge_device_id (target ∷ rest) s =
      register_each entry bridge_id bridge_device_id rest
        (async_register_target_device entry bridge_id bridge_device_id target s).1

  -- `async_sync_target_devices`
  unfoldable pub async_sync_target_devices : ConfigEntry → String → String → R.State → R.State
  unfolding async_register_target_device
  async_sync_target_devices entry bridge_id bridge_device_id s =
      register_each entry bridge_id bridge_device_id (values (targets entry)) s

  abbrev id_of : Option DeviceEntry → Option String
  id_of none = none
  id_of (some device) = some device.id

  -- `async_target_device_id`
  unfoldable pub async_target_device_id : ConfigEntry → String → RfTarget → R.State → Option String
  async_target_device_id entry bridge_id target s =
      id_of (R.find s (target_device_identifier bridge_id target.target_id) entry.entry_id)

  abbrev area_of : Option DeviceEntry → Option String
  area_of none = none
  area_of (some device) = device.area_id

  -- `async_target_device_area`
  unfoldable pub async_target_device_area :
      ConfigEntry → String → RfTarget → R.State → Option String
  async_target_device_area entry bridge_id target s =
      area_of (R.find s (target_device_identifier bridge_id target.target_id) entry.entry_id)

  abbrev moved_to : Option String → Option String → R.State → R.State
  moved_to area_id none s = s
  moved_to area_id (some device_id) s = (R.set_area device_id area_id s).1

  -- `async_set_target_area`
  unfoldable pub async_set_target_area :
      ConfigEntry → String → RfTarget → Option String → R.State → R.State
  unfolding async_target_device_id
  async_set_target_area entry bridge_id target area_id s =
      moved_to area_id (async_target_device_id entry bridge_id target s) s

  abbrev at_mac : Option String → String → R.State → Option DeviceEntry
  at_mac none esphome_entry_id s = none
  at_mac (some mac) esphome_entry_id s = R.find_by_mac s mac esphome_entry_id

  -- `_async_find_esphome_device`, of the entry that `async_get_entry` gave
  unfoldable pub async_find_esphome_device : Option ConfigEntry → String → R.State → Option String
  async_find_esphome_device none esphome_entry_id s = none
  async_find_esphome_device (some esphome_entry) esphome_entry_id s =
      id_of (at_mac esphome_entry.unique_id esphome_entry_id s)

  abbrev bridge_request : ConfigEntry → String → DeviceRequest
  bridge_request entry bridge_id = record {
    config_entry_id = entry.entry_id;
    config_subentry_id = none;
    identifier = bridge_id;
    name = entry.title;
    model = device_model;
    via_device_id = none;
  }

  abbrev answered : Option DeviceEntry → Result DeviceEntry
  answered none = err assertion_error
  answered (some device) = ok device

  -- The link to the node, where the node is found and the device does not have it.
  abbrev linked : Option String → DeviceEntry × R.State → Result DeviceEntry × R.State
  linked none (device, s) = (ok device, s)
  linked (some esphome_device_id) (device, s) =
      let (updated, s') = R.set_via device.id esphome_device_id s in
      if device.via_device_id == some esphome_device_id
      then (ok device, s)
      else (answered updated, s')

  -- `async_register_bridge_device`
  unfoldable pub async_register_bridge_device :
      ConfigEntry → Option ConfigEntry → String → String → Exec R.State DeviceEntry
  unfolding async_find_esphome_device
  async_register_bridge_device entry esphome_entry esphome_entry_id bridge_id s =
      let (device, s') = R.get_or_create (bridge_request entry bridge_id) s in
      linked (async_find_esphome_device esphome_entry esphome_entry_id s') (device, s')
