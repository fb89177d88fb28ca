-- ===== src/Services.antt =====
-- custom_components/rf_cloner/services.py: the integration's own actions, apart from their
-- registration. `runtimes` gives the runtime data of the entries that are loaded.
pub mod Captures
mod Tests
use esphome_rf_cloner.Base.{
  ℕ, String, Bool, true, false, not, ◌&&◌, Option, none, some, if◌then◌else◌, ◌==◌, string_eq,
}
use esphome_rf_cloner.Base.Dict.{Dict}
use esphome_rf_cloner.Python.Result.{Result, ok, err, service_validation_error}
use esphome_rf_cloner.Python.Exec.{Exec, pure, raise, lift, gets, ◌>>=◌, ◌>>◌}
use esphome_rf_cloner.Python.Value.{Value, at}
use esphome_rf_cloner.Const.{domain, conf_name}
use esphome_rf_cloner.Entry.{ConfigEntry}
use esphome_rf_cloner.Host.{Host}
use esphome_rf_cloner.Models.Names.{validate_command_name}
use esphome_rf_cloner.Coordinator
use esphome_rf_cloner.Coordinator.{LearnOutcome}
use esphome_rf_cloner.Snapshot.{Snapshot, as_stored}
use esphome_rf_cloner.Runtime.{RfClonerRuntimeData, as_text}
use esphome_rf_cloner.Flow.{stripped}

abbrev pub attr_config_entry_id : String
attr_config_entry_id = "config_entry_id"

-- The entry that was found, if it is one of this integration's and loaded.
abbrev pub usable : Option ConfigEntry → Result ConfigEntry
usable none = err (service_validation_error "unknown_entry")
usable (some entry) =
    if not (entry.domain == domain)
    then err (service_validation_error "unknown_entry")
    else if not entry.loaded
    then err (service_validation_error "entry_not_loaded")
    else ok entry

-- `call.data[ATTR_CONFIG_ENTRY_ID]`
abbrev pub entry_id_of : Dict String Value → Result String
entry_id_of call = elim (at call attr_config_entry_id) as (λ _. Result String) [
  | err e ↦ err e
  | ok v ↦ as_text v
]

abbrev pub valid_name : String → Option String → Result String
valid_name name none = ok name
valid_name name (some problem) = err (service_validation_error problem)

module _ (H : Host) (runtimes : String → RfClonerRuntimeData H) where
  abbrev pub resolved_as : Result String → H.State → Result ConfigEntry
  resolved_as (err e) s = err e
  resolved_as (ok entry_id) s = usable (H.get_entry s entry_id)

  -- `_resolve_entry`
  unfoldable pub resolve_entry : Dict String Value → H.State → Result ConfigEntry
  resolve_entry call s = resolved_as (entry_id_of call) s

  abbrev resolved : Dict String Value → Exec H.State ConfigEntry
  resolved call s = (resolve_entry call s, s)

  -- The name that was submitted, if it is a command's.
  abbrev pub checked_name : Dict String Value → Result String
  checked_name call = elim (stripped H call conf_name) as (λ _. Result String) [
    | err e ↦ err e
    | ok name ↦ valid_name name (validate_command_name name)
  ]

  abbrev pub judged : Bool → Exec H.State (Option (Unit {0}))
  judged true s = (ok (some tt), s)
  judged false s = (err (service_validation_error "learn_failed"), s)

  -- The outcome, or `none` where the model of the learn has run out of fuel.
  abbrev pub concluded : Option LearnOutcome → Exec H.State (Option (Unit {0}))
  concluded none s = (ok none, s)
  concluded (some outcome) s = judged outcome.succeeded s

  -- `_async_learn`
  unfoldable pub async_learn : ℕ → Dict String Value → Exec H.State (Option (Unit {0}))
  unfolding resolve_entry
  async_learn fuel call = do
    entry ← resolved call
    name ← lift (checked_name call)
    outcome ← Coordinator.async_learn H fuel (runtimes entry.entry_id).transport name
    concluded outcome

  -- `_async_cancel_learn`
  unfoldable pub async_cancel_learn : Dict String Value → Exec H.State (Unit {0})
  unfolding resolve_entry
  async_cancel_learn call = do
    entry ← resolved call
    Coordinator.async_cancel H (runtimes entry.entry_id).transport

  abbrev stored_form : Option (Snapshot H.Datetime) → Result (Dict String Value)
  stored_form none = err (service_validation_error "no_snapshot")
  stored_form (some snapshot) = ok (as_stored H snapshot)

  -- `_async_export_snapshot`
  unfoldable pub async_export_snapshot : Dict String Value → Exec H.State (Dict String Value)
  unfolding resolve_entry as_stored
  async_export_snapshot call = do
    entry ← resolved call
    lift (stored_form (runtimes entry.entry_id).snapshots.snapshot)
