-- ===== src/Host.antt =====
-- Home Assistant as the integration meets it: config entries, actions, the clock and the snapshot
-- store. None of it is code of this repository, so it is a parameter of every model that calls it,
-- together with whatever other tasks do to its state while a call is awaited.
pub mod Recorded
use esphome_rf_cloner.Base.{ℕ, ◌+◌, ◌≤◌, ◌≡◌, String, Bool, Option, some}
use esphome_rf_cloner.Base.Dict.{Dict}
use esphome_rf_cloner.Python.Result.{Result, ok}
use esphome_rf_cloner.Python.Exec.{Exec}
use esphome_rf_cloner.Python.Value.{Value, str}
use esphome_rf_cloner.Entry.{ConfigEntry}

pub record Host : Type 1 where
  pub State : Type 0
  -- `config_entries.async_get_entry`
  pub get_entry : State → String → Option ConfigEntry
  -- `services.has_service`
  pub has_service : State → String → String → Bool
  -- `services.async_call` of a domain and a service, with its data and `return_response`
  pub async_call : String → String → Dict String Value → Bool → Exec State Value
  -- `time.monotonic`, in milliseconds, and `asyncio.sleep`
  pub monotonic : State → ℕ
  pub sleep : ℕ → State → State
  -- `datetime` values: `dt_util.parse_datetime`, `isoformat` and `dt_util.utcnow`
  pub Datetime : Type 0
  pub parse_datetime : Value → Result (Option Datetime)
  pub isoformat : Datetime → String
  pub utcnow : State → Datetime
  -- `Store.async_load` and `Store.async_save`, by the store's key
  pub store_load : State → String → Option (Dict String Value)
  pub store_save : String → Dict String Value → State → State
  -- `Store.async_remove`
  pub store_remove : String → State → State
  -- `DataUpdateCoordinator.async_request_refresh`: Home Assistant polls when it sees fit
  pub request_refresh : State → State
  -- `str` of a list or a mapping
  pub repr : Value → String

-- Time passes: sleeping takes at least as long as was asked for, and a call does not turn the
-- clock back.
pub record IsTicking (H : Host) : Type 0 where
  pub sleep_advances : (n : ℕ) (s : H.State) → H.monotonic s + n ≤ H.monotonic (H.sleep n s)
  pub call_advances :
      (d n : String) (v : Dict String Value) (r : Bool) (s : H.State)
      → H.monotonic s ≤ H.monotonic (H.async_call d n v r s).1

-- A time that was written is read back.
abbrev pub ParsesIso : Host → Type 0
ParsesIso H = (t : H.Datetime) → H.parse_datetime (str (H.isoformat t)) ≡ ok (some t)
