-- ===== src/Transport.antt =====
-- custom_components/rf_cloner/transport.py: typed calls of one bridge's ESPHome actions.
pub mod Trace
use Prim.Native.String.{◌++◌}
use esphome_rf_cloner.Base.{
  ℤ, pos, String, Bool, true, false, ◌&&◌, Option, none, some, List, [], ◌∷◌, map, leb_ℤ,
  if◌then◌else◌, string_eq,
}
use esphome_rf_cloner.Base.Dict.{Dict, lookup}
use esphome_rf_cloner.Python.Result.{
  Result, ok, err, Exception, assertion_error, service_not_found, bridge_unavailable,
  home_assistant_error, not_a_mapping, outside_domain,
}
use esphome_rf_cloner.Python.Exec.{Exec, pure, raise, lift, ◌>>=◌, ◌>>◌}
use esphome_rf_cloner.Python.Text.{replace}
use esphome_rf_cloner.Python.Value.{Value, str, int, list, dict, of_list, truth, as_str}
use esphome_rf_cloner.Const.{esphome_domain, revision_max}
use esphome_rf_cloner.Entry.{ConfigEntry}
use esphome_rf_cloner.Host.{Host}
use esphome_rf_cloner.Models.BridgeStatus
use esphome_rf_cloner.Models.BridgeStatus.{BridgeStatus}
use esphome_rf_cloner.Models.ExportedCommand
use esphome_rf_cloner.Models.ExportedCommand.{ExportedCommand}

-- `BridgeTransport`, without the `hass` that it is bound to.
pub record BridgeTransport : Type 0 where
  pub esphome_entry_id : String
  pub action_prefix : String

-- `except ServiceNotFound as err: raise BridgeUnavailable(…) from err`
abbrev pub unavailable {ℓ} : {A : Type ℓ} → Result A → Result A
unavailable (err service_not_found) = err bridge_unavailable
unavailable r = r

-- What `_call` makes of an answer: nothing when none was asked for, else a mapping.
abbrev pub answer : Bool → Result Value → Result (Option Value)
answer response (err e) = err e
answer false (ok v) = ok none
answer true (ok (dict fs)) = ok (some (dict fs))
answer true (ok v) = err (home_assistant_error not_a_mapping)

-- `assert payload is not None`
abbrev pub asserted : Option Value → Result Value
asserted none = err assertion_error
asserted (some v) = ok v

module _ (H : Host) where
  -- `name if name else None`, of the entry's `device_name`
  abbrev named : Option Value → Option String
  named none = none
  named (some v) = if truth v then some (as_str H.repr v) else none

  abbrev node_of : Option ConfigEntry → Option String
  node_of none = none
  node_of (some entry) = named (lookup "device_name" entry.content)

  -- `BridgeTransport.node_name`
  unfoldable pub node_name : BridgeTransport → H.State → Option String
  node_name t s = node_of (H.get_entry s t.esphome_entry_id)

  abbrev service_of : BridgeTransport → String → Option String → Option String
  service_of t action none = none
  service_of t action (some node) = some (replace b'-' "_" node ++ "_" ++ t.action_prefix ++ action)

  -- `BridgeTransport.service_name`
  unfoldable pub service_name : BridgeTransport → String → H.State → Option String
  service_name t action s = service_of t action (node_name t s)

  abbrev has : Option String → H.State → Bool
  has none s = false
  has (some service) s = H.has_service s esphome_domain service

  -- `BridgeTransport.supports`
  unfoldable pub supports : BridgeTransport → String → H.State → Bool
  supports t action s = has (service_name t action s) s

  -- `BridgeTransport.available`
  unfoldable pub available : BridgeTransport → H.State → Bool
  unfolding supports
  available t s = supports t "status" s

  abbrev pub call_service : Option String → Dict String Value → Bool → Exec H.State (Option Value)
  call_service none argument response s = (err bridge_unavailable, s)
  call_service (some service) argument response s =
      let (r, s') = H.async_call esphome_domain service argument response s in
      (answer response (unavailable r), s')

  -- `BridgeTransport._call`
  unfoldable pub call :
      BridgeTransport → String → Dict String Value → Bool → Exec H.State (Option Value)
  call t action argument response s = call_service (service_name t action s) argument response s

  -- A `_call` whose answer is not looked at.
  abbrev pub run : BridgeTransport → String → Dict String Value → Exec H.State (Unit {0})
  run t action argument = do call t action argument false; pure tt

  -- `BridgeTransport.async_status`
  unfoldable pub async_status : BridgeTransport → Exec H.State BridgeStatus
  async_status t = do
    answered ← call t "status" [] true
    payload ← lift (asserted answered)
    lift (BridgeStatus.from_payload H.repr payload)

  -- `BridgeTransport.async_export`
  unfoldable pub async_export : BridgeTransport → ℤ → Exec H.State (Option ExportedCommand)
  async_export t command_id = do
    answered ← call t "export" (("command_id", int command_id) ∷ []) true
    payload ← lift (asserted answered)
    lift (ExportedCommand.from_payload H.repr payload)

  -- `BridgeTransport.async_learn`
  unfoldable pub async_learn : BridgeTransport → String → Exec H.State (Unit {0})
  async_learn t name = run t "learn" (("name", str name) ∷ [])

  -- `BridgeTransport.async_cancel`
  unfoldable pub async_cancel : BridgeTransport → Exec H.State (Unit {0})
  async_cancel t = run t "cancel" []

  -- `BridgeTransport.async_rename`
  unfoldable pub async_rename : BridgeTransport → ℤ → String → Exec H.State (Unit {0})
  async_rename t command_id name =
      run t "rename" (("command_id", int command_id) ∷ ("name", str name) ∷ [])

  -- `BridgeTransport.async_delete`
  unfoldable pub async_delete : BridgeTransport → ℤ → String → Exec H.State (Unit {0})
  async_delete t command_id name s = elim (supports t "delete_id" s) [
    | true ↦ run t "delete_id" (("command_id", int command_id) ∷ []) s
    | false ↦ run t "delete" (("name", str name) ∷ []) s
  ]

  -- `BridgeTransport.async_send`
  unfoldable pub async_send : BridgeTransport → ℤ → Exec H.State (Unit {0})
  async_send t command_id = run t "send_id" (("command_id", int command_id) ∷ [])

  -- `BridgeTransport.async_clear`
  unfoldable pub async_clear : BridgeTransport → Exec H.State (Unit {0})
  async_clear t = run t "clear" []

  -- `BridgeTransport.async_restore_begin`
  unfoldable pub async_restore_begin : BridgeTransport → String → ℤ → Exec H.State (Unit {0})
  async_restore_begin t bridge_id next_command_id =
      run t "restore_begin"
        (("bridge_id", str bridge_id) ∷ ("next_command_id", int next_command_id) ∷ [])

  -- `BridgeTransport.async_import`
  unfoldable pub async_import : BridgeTransport → ExportedCommand → Exec H.State (Unit {0})
  async_import t command = run t "import" (
      ("command_id", int command.command_id)
      ∷ ("name", str command.name)
      ∷ ("timings", list (of_list (map int command.timings)))
      ∷ ("gap_us", int command.gap_us)
      ∷ ("repeat_times", int command.repeat_times)
      ∷ ("frequency_hz", int command.frequency_hz)
      ∷ ("modulation", int command.modulation)
      ∷ [])

  -- `BridgeTransport.async_restore_commit`
  unfoldable pub async_restore_commit : BridgeTransport → ℤ → Exec H.State (Unit {0})
  async_restore_commit t source_revision =
      elim (leb_ℤ (pos 0) source_revision && leb_ℤ source_revision (pos revision_max)) [
        | true ↦ run t "restore_commit" (("source_revision", int source_revision) ∷ [])
        | false ↦ raise (home_assistant_error outside_domain)
      ]
