-- ===== src/Demo.antt =====
-- A small bridge and its Home Assistant, for the tests: every parameter of the models as a concrete
-- function.
use esphome_rf_cloner.Base.{
  ℕ, zero, suc, ◌+◌, pos, String, Bool, true, false, not, Option, none, some, List, [], ◌∷◌, keep,
  map, if◌then◌else◌, ◌==◌, string_eq, option_string_eq, refl, arith, ap, ◌∙◌, ◌≡◌, ==_self,
}
use esphome_rf_cloner.Base.Dict.{Dict, lookup, insert, lookup-insert}
use esphome_rf_cloner.Python.Result.{Result, ok}
use esphome_rf_cloner.Python.Value.{Value, null, int, str, list, dict, of_list, of_dict}
use esphome_rf_cloner.Entry.{ConfigEntry}
use esphome_rf_cloner.Host.{Host, IsTicking, ParsesIso}
use esphome_rf_cloner.Registry.{RegistryEntry, EntityRegistry, IsRegistry, detached}
use esphome_rf_cloner.Models.CommandInfo.{CommandInfo}
use esphome_rf_cloner.Models.BridgeStatus.{BridgeStatus}
use esphome_rf_cloner.Models.ExportedCommand.{ExportedCommand, as_dict}
use esphome_rf_cloner.Snapshot.{Snapshot, SnapshotManager}
use esphome_rf_cloner.Transport.{BridgeTransport}
use esphome_rf_cloner.Reconcile.{CommandReconciler}
use esphome_rf_cloner.Devices.{DeviceEntry, DeviceRequest, DeviceRegistry, IsDeviceRegistry}

abbrev pub bridge : String
bridge = "bridge-1"

abbrev pub power : ExportedCommand
power = record {
  schema = pos 1;
  bridge_id = bridge;
  command_id = pos 1;
  name = "power";
  gap_us = pos 10000;
  repeat_times = pos 3;
  frequency_hz = pos 433920000;
  modulation = pos 0;
  timings = pos 350 ∷ pos 1050 ∷ [];
}

abbrev pub row : CommandInfo
row = record { command_id = pos 1; name = "power"; pulses = pos 2 }

-- The status of a bridge in this state, with these rows and this revision.
abbrev pub status_of : String → List CommandInfo → ℕ → ℕ → BridgeStatus
status_of state commands count revision = record {
  bridge_id = bridge;
  revision = pos revision;
  next_command_id = pos 2;
  restore_incomplete = false;
  read_only = false;
  fault = "none";
  state = state;
  last_result = "";
  count = pos count;
  max_commands = pos 16;
  max_pulses = pos 128;
  used_bytes = pos 0;
  capacity_bytes = pos 0;
  commands = commands;
}

abbrev row_payload : CommandInfo → Value
row_payload c =
    dict (of_dict (("id", int c.command_id) ∷ ("name", str c.name) ∷ ("pulses", int c.pulses) ∷ []))

abbrev pub status_payload : BridgeStatus → Value
status_payload status = dict (
    of_dict (
      ("bridge_id", str status.bridge_id)
      ∷ ("revision", int status.revision)
      ∷ ("next_command_id", int status.next_command_id)
      ∷ ("count", int status.count)
      ∷ ("max_commands", int status.max_commands)
      ∷ ("max_pulses", int status.max_pulses)
      ∷ ("state", str status.state)
      ∷ ("commands", list (of_list (map row_payload status.commands)))
      ∷ []))

-- The status in each phase: vacant, learning, and then with its command.
abbrev pub status_in : ℕ → BridgeStatus
status_in zero = status_of "idle" [] 0 1
status_in (suc zero) = status_of "idle" [] 0 2
status_in (suc (suc zero)) = status_of "armed" [] 0 3
status_in _ = status_of "captured" (row ∷ []) 1 8

-- A call that wants an answer reads; another one brings the bridge to its next phase.
abbrev respond : Dict String Value → Bool → ℕ → Result Value × ℕ
respond argument false phase = (ok null, suc phase)
respond [] true phase = (ok (status_payload (status_in phase)), phase)
respond (field ∷ fields) true phase = (ok (dict (of_dict (as_dict power))), phase)

abbrev pub entry : ConfigEntry
entry = record {
  entry_id = "entry-1";
  domain = "rf_cloner";
  unique_id = some bridge;
  title = "Bridge";
  version = pos 2;
  minor_version = pos 1;
  content = ("device_name", str "rf-bridge") ∷ ("esphome_entry_id", str "esphome-1") ∷ [];
  options =
      (
        "commands",
        dict (
            of_dict (
              ("1", dict (of_dict (("target_id", str "t1") ∷ ("icon", str "mdi:power") ∷ [])))
              ∷ ("7", dict (of_dict (("icon", str "mdi:fan") ∷ [])))
              ∷ [])),
      )
      ∷ [];
  subentries =
      record {
        subentry_id = "s1";
        subentry_type = "target";
        title = "Fan";
        unique_id = none;
        content = ("target_id", str "t1") ∷ [];
      }
      ∷ [];
  loaded = true;
}

abbrev read_time : Value → Result (Option String)
read_time (str t) = ok (some t)
read_time v = ok none

-- Its state is the bridge's phase and the time. Sleeping brings the bridge to its next phase.
abbrev pub host : Host
host = record {
  State = ℕ × ℕ;
  get_entry = λ s id. some entry;
  has_service = λ s domain service. true;
  async_call = λ domain service argument response s.
      ((respond argument response s.0).0, ((respond argument response s.0).1, s.1));
  monotonic = λ s. s.1;
  sleep = λ n s. (suc s.0, s.1 + n);
  Datetime = String;
  parse_datetime = read_time;
  isoformat = λ t. t;
  utcnow = λ s. "2026-01-01T00:00:00+00:00";
  store_load = λ s key. none;
  store_save = λ key content s. s;
  store_remove = λ key s. s;
  request_refresh = λ s. s;
  repr = λ v. "";
}

pub host-IsTicking : IsTicking host
host-IsTicking = record {
  sleep_advances = λ n s. omega arith;
  call_advances = λ d n v r s. omega arith;
}

pub host-ParsesIso : ParsesIso host
host-ParsesIso t = refl

abbrev pub transport : BridgeTransport
transport = record { esphome_entry_id = "esphome-1"; action_prefix = "rf_" }

abbrev pub snapshot : Snapshot String
snapshot = record {
  bridge_id = bridge;
  revision = pos 7;
  next_command_id = pos 2;
  captured_at = "2026-01-01T00:00:00+00:00";
  commands = power ∷ [];
}

abbrev pub manager : SnapshotManager host
manager = record { bridge_id = bridge; transport = transport; snapshot = none }

-- A registry of one config entry: the list of its records.
abbrev pub registry : EntityRegistry
registry = record {
  State = List RegistryEntry;
  entries = λ s entry_id. s;
  remove = λ entity_id. keep (λ r. not (r.entity_id == entity_id));
  detach = λ entity_id. map (λ r. if r.entity_id == entity_id then detached r else r);
  clear_subentry =
      λ entry_id subentry_id. keep (λ r. not (r.config_subentry_id == some subentry_id));
}

pub registry-IsRegistry : IsRegistry registry
registry-IsRegistry = record {
  entries-remove = λ entity_id entry_id s. refl;
  entries-detach = λ entity_id entry_id s. refl;
  entries-clear_subentry = λ subentry_id entry_id s. refl;
}

abbrev pub record_of : String → String → Option String → RegistryEntry
record_of entity_id unique_id subentry = record {
  entity_id = entity_id;
  unique_id = unique_id;
  config_subentry_id = subentry;
  device_id = none;
}

-- The bridge's own entity, a listed command's and one that the bridge no longer has.
abbrev pub records : List RegistryEntry
records =
    record_of "sensor.state" "bridge-1_state" none
    ∷ record_of "button.power" "bridge-1_1" (some "s1")
    ∷ record_of "button.old" "bridge-1_7" none
    ∷ []

abbrev pub reconciler : CommandReconciler registry
reconciler = record {
  entry = entry;
  registry = records;
  reserved = [];
  active = true;
  identity_mismatch = false;
  listeners = 1 ∷ [];
  heard = [];
  known_targets = [];
}

abbrev got :
    Option DeviceEntry
    → DeviceRequest
    → Dict String DeviceEntry
    → DeviceEntry × Dict String DeviceEntry
got (some device) q s = (record device { id = q.identifier }, s)
got none q s =
    let device : DeviceEntry = record {
      id = q.identifier;
      area_id = none;
      via_device_id = q.via_device_id;
    } in
    (device, insert q.identifier device s)

-- A device under the id by which it is found.
abbrev with_id : String → Option DeviceEntry → Option DeviceEntry
with_id id none = none
with_id id (some device) = some (record device { id = id })

abbrev changed :
    String
    → (DeviceEntry → DeviceEntry)
    → Option DeviceEntry
    → Dict String DeviceEntry
    → Option DeviceEntry × Dict String DeviceEntry
changed id f none s = (none, s)
changed id f (some device) s =
    let next = f (record device { id = id }) in (some next, insert id next s)

-- The device registry: a list of the devices by their identifiers, which are their ids too.
abbrev pub devices : DeviceRegistry
devices = record {
  State = Dict String DeviceEntry;
  find = λ s identifier entry_id. with_id identifier (lookup identifier s);
  get_or_create = λ q s. got (lookup q.identifier s) q s;
  set_area = λ id area s. changed id (λ d. record d { area_id = area }) (lookup id s) s;
  set_via = λ id via s. changed id (λ d. record d { via_device_id = some via }) (lookup id s) s;
  find_by_mac = λ s mac entry_id. none;
}

got-found :
    (o : Option DeviceEntry) (q : DeviceRequest) (s : Dict String DeviceEntry) (d : DeviceEntry)
    → with_id q.identifier o ≡ some d
    → (got o q s).0.area_id ≡ d.area_id
got-found none q s d found = cc
got-found (some device) q s d found =
    let same : record device { id = q.identifier } ≡ d = ground arith in
    ap (λ (e : DeviceEntry). e.area_id) same

got-created :
    (o : Option DeviceEntry) (q : DeviceRequest) (s : Dict String DeviceEntry)
    → with_id q.identifier o ≡ none
    → (got o q s).0.area_id ≡ none
got-created none q s absent = refl
got-created (some device) q s absent = cc

inserted :
    (id : String) (device : DeviceEntry) (s : Dict String DeviceEntry)
    → lookup id (insert id device s) ≡ some device
inserted id device s = lookup-insert id id device s ∙ rw (==_self id) refl

find-got :
    (o : Option DeviceEntry) (q : DeviceRequest) (s : Dict String DeviceEntry)
    → lookup q.identifier s ≡ o
    → let (d, s') = got o q s in with_id q.identifier (lookup q.identifier s') ≡ some d
find-got none q s there = rw (inserted q.identifier _ s) refl
find-got (some device) q s there = rw there refl

-- A device is in the area, in the answer and where it is found.
abbrev Moves : String → Option String → Dict String DeviceEntry → Type 0
Moves id area s =
    let moved = changed id (λ e. record e { area_id = area }) (lookup id s) s in
    (d' : DeviceEntry) × (moved.0 ≡ some d')
    × (d'.area_id ≡ area)
    × (with_id id (lookup id moved.1) ≡ some d')

changed-Moves :
    (id : String) (area : Option String) (device : DeviceEntry) (s : Dict String DeviceEntry)
    → lookup id s ≡ some device
    → Moves id area s
changed-Moves id area device s there = rw there (
  record { id = id; area_id = area; via_device_id = device.via_device_id },
  refl,
  refl,
  rw (inserted id _ s) refl,
)

got-Moves :
    (o : Option DeviceEntry) (q : DeviceRequest) (area : Option String)
    (s : Dict String DeviceEntry)
    → lookup q.identifier s ≡ o
    → Moves q.identifier area (got o q s).1
got-Moves none q area s there = changed-Moves q.identifier area _ _ (inserted q.identifier _ s)
got-Moves (some device) q area s there = changed-Moves q.identifier area device s there

got-id :
    (o : Option DeviceEntry) (q : DeviceRequest) (s : Dict String DeviceEntry)
    → (got o q s).0.id ≡ q.identifier
got-id none q s = refl
got-id (some device) q s = refl

pub devices-IsDeviceRegistry : IsDeviceRegistry devices
devices-IsDeviceRegistry = record {
  get-found = λ q s d found. got-found (lookup q.identifier s) q s d found;
  get-created = λ q s absent. got-created (lookup q.identifier s) q s absent;
  set_area-created = λ q s area.
      rw (got-id (lookup q.identifier s) q s) (got-Moves (lookup q.identifier s) q area s refl);
  find-got = λ q s. find-got (lookup q.identifier s) q s refl;
}
