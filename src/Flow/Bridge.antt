-- ===== src/Flow/Bridge.antt =====
-- config_flow.py, `RfClonerConfigFlow`: binding a bridge to the node that carries it, and binding
-- it again.
use esphome_rf_cloner.Base.{
  pos, String, Bool, true, false, not, Option, none, some, List, [], ◌∷◌, all, length,
  if◌then◌else◌, ◌==◌, string_eq, option_string_eq,
}
use esphome_rf_cloner.Base.Dict.{Dict, lookup, insert}
use esphome_rf_cloner.Python.Result.{
  Result, ok, err, Exception, assertion_error, restore_not_possible, is_home_assistant_error,
}
use esphome_rf_cloner.Python.Exec.{Exec, lift, ◌>>=◌}
use esphome_rf_cloner.Python.Decimal.{show_int}
use esphome_rf_cloner.Python.Value.{Value, str, at, get}
use esphome_rf_cloner.Const.{
  conf_esphome_entry_id, conf_action_prefix, default_action_prefix, subentry_type_target,
  action_type_learn_command,
}
use esphome_rf_cloner.Entry.{ConfigEntry}
use esphome_rf_cloner.Host.{Host}
use esphome_rf_cloner.Registry.{EntityRegistry}
use esphome_rf_cloner.Devices.{DeviceRegistry}
use esphome_rf_cloner.Models.BridgeStatus.{BridgeStatus}
use esphome_rf_cloner.Transport.{BridgeTransport}
use esphome_rf_cloner.Restore.{check_restore_target, async_restore}
use esphome_rf_cloner.Snapshot.{Snapshot}
use esphome_rf_cloner.Runtime.{
  RfClonerRuntimeData, World, entry_of, on_host, on_reconciler, as_text,
}
use esphome_rf_cloner.Flow.{
  Field, FlowResult, show_form, aborts, creates_entry, Strings, text_selector,
  esphome_entry_selector, error_or, async_probe, suggested_title,
}

-- The flows that the integration page offers for a bridge.
pub data SubentryFlow : Type 0 where
  target_subentry_flow learn_command_flow : SubentryFlow

-- `async_get_supported_subentry_types`
abbrev pub async_get_supported_subentry_types : Dict String SubentryFlow
async_get_supported_subentry_types =
    (subentry_type_target, target_subentry_flow)
    ∷ (action_type_learn_command, learn_command_flow)
    ∷ []

-- The node and the prefix that were submitted.
abbrev pub submitted_binding : Dict String Value → Result (String × String)
submitted_binding fields =
    elim (at fields conf_esphome_entry_id) as (λ _. Result (String × String)) [
      | err e ↦ err e
      | ok node ↦ elim (as_text node) as (λ _. Result (String × String)) [
        | err e ↦ err e
        | ok node_id ↦
            elim (as_text (get fields conf_action_prefix (str default_action_prefix)))
              as (λ _. Result (String × String)) [
                | err e ↦ err e
                | ok action_prefix ↦ ok (node_id, action_prefix)
              ]
      ]
    ]

-- `_rebind`, for the data that it writes.
abbrev pub rebound : String × String → Dict String Value → Dict String Value
rebound (esphome_entry_id, action_prefix) content =
    insert conf_action_prefix (str action_prefix)
      (insert conf_esphome_entry_id (str esphome_entry_id) content)

-- The current node, if it still exists.
abbrev still_there : Option Value → List ConfigEntry → Option Value
still_there (some (str current)) choices =
    if all (λ (choice : ConfigEntry). not (choice.entry_id == current)) choices
    then none
    else some (str current)
still_there _ choices = none

module _ (H : Host) (S : Strings) where
  abbrev binding_fields : Option Value → Value → List ConfigEntry → List Field
  binding_fields current prefix found =
      record {
        key = conf_esphome_entry_id;
        required = true;
        default = current;
        selector = esphome_entry_selector S found;
      }
      ∷ record {
        key = conf_action_prefix;
        required = false;
        default = some prefix;
        selector = text_selector;
      }
      ∷ []

  abbrev user_form : List ConfigEntry → Dict String String → FlowResult
  user_form found errors =
      show_form "user" (binding_fields none (str default_action_prefix) found) errors []

  -- `async_set_unique_id` and `_abort_if_unique_id_configured`, then the entry. `configured` tells
  -- which identities have an entry already.
  abbrev pub created : (String → Bool) → BridgeStatus → String × String → H.State → FlowResult
  created configured status (esphome_entry_id, action_prefix) s =
      if configured status.bridge_id
      then aborts "already_configured" []
      else creates_entry (suggested_title H esphome_entry_id s)
          ((conf_esphome_entry_id, str esphome_entry_id)
            ∷ (conf_action_prefix, str action_prefix)
            ∷ [])
          (some status.bridge_id)

  abbrev pub probed :
      (String → Bool)
      → List ConfigEntry
      → String × String
      → Option BridgeStatus × Option String
      → Exec H.State FlowResult
  probed configured found bound_to (none, error) s =
      (ok (user_form found (("base", error_or "unknown" error) ∷ [])), s)
  probed configured found bound_to (some status, error) s =
      (ok (created configured status bound_to s), s)

  abbrev bind_to :
      (String → Bool) → List ConfigEntry → Result (String × String) → Exec H.State FlowResult
  bind_to configured found (err e) s = (err e, s)
  bind_to configured found (ok bound_to) s =
      (async_probe H bound_to.0 bound_to.1 >>= probed configured found bound_to) s

  abbrev user_step :
      (String → Bool) → List ConfigEntry → Option (Dict String Value) → Exec H.State FlowResult
  user_step configured found none s = (ok (user_form found []), s)
  user_step configured found (some fields) s = bind_to configured found (submitted_binding fields) s

  -- `async_step_user`, with the ESPHome entries that were found
  unfoldable pub async_step_user :
      (String → Bool) → List ConfigEntry → Option (Dict String Value) → Exec H.State FlowResult
  unfolding async_probe
  async_step_user configured [] user_input s = (ok (aborts "no_esphome_entries" []), s)
  async_step_user configured (e ∷ es) user_input s = user_step configured (e ∷ es) user_input s

  module _ (R : EntityRegistry) (D : DeviceRegistry) where
    -- `_replacement`, and the world.
    abbrev pub Reconfiguring : Type 0
    Reconfiguring = Option (String × String × BridgeStatus) × World H R D

    abbrev pub rebind : String × String → World H R D → World H R D
    rebind bound_to =
        on_reconciler
          (λ m. record m { entry = record m.entry { content = rebound bound_to m.entry.content } })

    abbrev replace_form : Snapshot H.Datetime → BridgeStatus → FlowResult
    replace_form snapshot status = show_form "replace" [] [] (
        ("bridge_id", snapshot.bridge_id)
        ∷ ("found_bridge_id", status.bridge_id)
        ∷ ("commands", show_int (pos (length snapshot.commands)))
        ∷ [])

    -- `except HomeAssistantError`, of the restore
    abbrev pub failed_onto : Exception → Bool → World H R D → Result FlowResult × World H R D
    failed_onto e true w = (ok (aborts "restore_failed" (("detail", S.describe e) ∷ [])), w)
    failed_onto e false w = (err e, w)

    abbrev pub restored_onto :
        String × String → Result (Unit {0}) → World H R D → Result FlowResult × World H R D
    restored_onto bound_to (ok _) w = (ok (aborts "restore_successful" []), rebind bound_to w)
    restored_onto bound_to (err e) w = failed_onto e (is_home_assistant_error e) w

    -- The restore, once it was confirmed.
    abbrev pub replaced :
        Option (Dict String Value)
        → String × String
        → BridgeStatus
        → Snapshot H.Datetime
        → Exec (World H R D) FlowResult
    replaced none bound_to status snapshot w = (ok (replace_form snapshot status), w)
    replaced (some fields) bound_to status snapshot w =
        let transport : BridgeTransport = record {
          esphome_entry_id = bound_to.0;
          action_prefix = bound_to.1;
        } in
        let (r, w') = on_host (async_restore H transport snapshot) w in restored_onto bound_to r w'

    -- `except RestoreNotPossible`
    abbrev refusal : Exception → Result FlowResult
    refusal (restore_not_possible reason) =
        ok (
          aborts "restore_not_possible" (("detail", S.describe (restore_not_possible reason)) ∷ []))
    refusal e = err e

    abbrev pub fitting :
        Option (Dict String Value)
        → String × String
        → BridgeStatus
        → Snapshot H.Datetime
        → Result (Unit {0})
        → Exec (World H R D) FlowResult
    fitting user_input bound_to status snapshot (ok _) w =
        replaced user_input bound_to status snapshot w
    fitting user_input bound_to status snapshot (err e) w = (refusal e, w)

    abbrev pub snapshot_of : Option (RfClonerRuntimeData H) → Option (Snapshot H.Datetime)
    snapshot_of none = none
    snapshot_of (some runtime) = runtime.snapshots.snapshot

    abbrev pub replace_with :
        Option (Dict String Value)
        → String × String × BridgeStatus
        → Option (Snapshot H.Datetime)
        → Exec (World H R D) FlowResult
    replace_with user_input (id, prefix, status) none w = (ok (aborts "no_snapshot" []), w)
    replace_with user_input (id, prefix, status) (some snapshot) w =
        fitting user_input (id, prefix) status snapshot (check_restore_target status snapshot) w

    abbrev pub replace_step :
        Option (Dict String Value)
        → Option (String × String × BridgeStatus)
        → Exec (World H R D) FlowResult
    replace_step user_input none w = (err assertion_error, w)
    replace_step user_input (some replacement) w =
        replace_with user_input replacement (snapshot_of w.runtime) w

    -- `async_step_replace`
    unfoldable pub async_step_replace : Option (Dict String Value) → Exec Reconfiguring FlowResult
    unfolding check_restore_target
    async_step_replace user_input (replacement, w) =
        let (r, w') = replace_step user_input replacement w in (r, (replacement, w'))

    abbrev reconfigure_form : List ConfigEntry → ConfigEntry → Dict String String → FlowResult
    reconfigure_form choices entry errors =
        show_form "reconfigure"
          (binding_fields (still_there (lookup conf_esphome_entry_id entry.content) choices)
            (get entry.content conf_action_prefix (str default_action_prefix)) choices)
          errors []

    abbrev pub compared : String × String → BridgeStatus → Bool → Exec Reconfiguring FlowResult
    compared bound_to status true (replacement, w) =
        (ok (aborts "reconfigure_successful" []), (replacement, rebind bound_to w))
    compared bound_to status false (replacement, w) =
        async_step_replace none (some (bound_to.0, bound_to.1, status), w)

    abbrev pub read_back :
        List ConfigEntry
        → String × String
        → Option BridgeStatus × Option String
        → Exec Reconfiguring FlowResult
    read_back choices bound_to (none, error) (replacement, w) = (
      ok (reconfigure_form choices (entry_of w) (("base", error_or "unknown" error) ∷ [])),
      (replacement, w),
    )
    read_back choices bound_to (some status, error) (replacement, w) =
        compared bound_to status (some status.bridge_id == (entry_of w).unique_id) (replacement, w)

    abbrev pub point_at :
        List ConfigEntry → Result (String × String) → Exec Reconfiguring FlowResult
    point_at choices (err e) l = (err e, l)
    point_at choices (ok bound_to) (replacement, w) =
        let (r, s) = async_probe H bound_to.0 bound_to.1 w.host in
        let next : Reconfiguring = (replacement, record w { host = s }) in
        (lift r >>= read_back choices bound_to) next

    abbrev pub reconfigure_step :
        List ConfigEntry → Option (Dict String Value) → Exec Reconfiguring FlowResult
    reconfigure_step choices none (replacement, w) =
        (ok (reconfigure_form choices (entry_of w) []), (replacement, w))
    reconfigure_step choices (some fields) l = point_at choices (submitted_binding fields) l

    -- `async_step_reconfigure`, with the ESPHome entries that were found
    unfoldable pub async_step_reconfigure :
        List ConfigEntry → Option (Dict String Value) → Exec Reconfiguring FlowResult
    unfolding async_probe async_step_replace
    async_step_reconfigure [] user_input l = (ok (aborts "no_esphome_entries" []), l)
    async_step_reconfigure (e ∷ es) user_input l = reconfigure_step (e ∷ es) user_input l
