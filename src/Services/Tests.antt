-- ===== src/Services/Tests.antt =====
-- Tests of the actions, on a bridge that captures what it is asked to learn.
use esphome_rf_cloner.Base.{ℕ, pos, String, ◌≡◌, refl, true, Option, none, some, List, [], ◌∷◌}
use esphome_rf_cloner.Base.Dict.{Dict}
use esphome_rf_cloner.Python.Result.{ok, err, service_validation_error}
use esphome_rf_cloner.Python.Value.{Value, str}
use esphome_rf_cloner.Entry.{ConfigEntry}
use esphome_rf_cloner.Models.BridgeStatus.{BridgeStatus}
use esphome_rf_cloner.Models.Names.{IsStorable}
use esphome_rf_cloner.Coordinator.{LearnOutcome}
use esphome_rf_cloner.Coordinator.Learning.{IsRead, Captured}
use esphome_rf_cloner.Runtime.{RfClonerRuntimeData}
use esphome_rf_cloner.Flow.{stripped}
use esphome_rf_cloner.Services.{resolve_entry, async_learn, async_export_snapshot}
use esphome_rf_cloner.Services.Captures.{async_learn-captures}
use esphome_rf_cloner.Demo.{bridge, host, transport, manager}

abbrev runtimes : String → RfClonerRuntimeData host
runtimes entry_id = record {
  bridge_id = bridge;
  bridge_device_id = "device-1";
  transport = transport;
  status = none;
  snapshots = manager;
  bound_to = ("esphome-1", "rf_");
}

abbrev learn_power : Dict String Value
learn_power = ("config_entry_id", str "entry-1") ∷ ("name", str "power") ∷ []

bad_name :
    (async_learn host runtimes 30
      (("config_entry_id", str "entry-1") ∷ ("name", str "a b") ∷ [])
      (1, 0)).0
    ≡ err (service_validation_error "name_invalid")
unfolding async_learn esphome_rf_cloner.Python.Value.at esphome_rf_cloner.Base.Dict.lookup
    esphome_rf_cloner.Base.string_eq esphome_rf_cloner.Models.Names.validate_command_name
    esphome_rf_cloner.Python.Text.strip esphome_rf_cloner.Python.Value.as_str
    esphome_rf_cloner.Models.Names.is_name_char
bad_name = refl

nothing_stored :
    (async_export_snapshot host runtimes learn_power (1, 0)).0
    ≡ err (service_validation_error "no_snapshot")
unfolding async_export_snapshot esphome_rf_cloner.Python.Value.at esphome_rf_cloner.Base.Dict.lookup
    esphome_rf_cloner.Base.string_eq
nothing_stored = refl

learns : async_learn host runtimes 30 learn_power (1, 0) ≡ (ok (some tt), (3, 1000))
unfolding async_learn esphome_rf_cloner.Python.Value.at esphome_rf_cloner.Base.Dict.lookup
    esphome_rf_cloner.Base.string_eq esphome_rf_cloner.Models.Names.validate_command_name
    esphome_rf_cloner.Python.Text.strip esphome_rf_cloner.Python.Value.as_str
    esphome_rf_cloner.Models.Names.is_name_char esphome_rf_cloner.Coordinator.async_learn
    esphome_rf_cloner.Transport.async_learn esphome_rf_cloner.Transport.call
    esphome_rf_cloner.Transport.service_name esphome_rf_cloner.Transport.node_name
    esphome_rf_cloner.Python.Value.truth esphome_rf_cloner.Transport.async_status
    esphome_rf_cloner.Models.BridgeStatus.from_payload esphome_rf_cloner.Coordinator.poll
    esphome_rf_cloner.Coordinator.outcome_of esphome_rf_cloner.Models.BridgeStatus.by_name
    esphome_rf_cloner.Coordinator.async_await_learn
learns = refl

async_learn-captures_example :
    (found : ConfigEntry) × (name : String) × (outcome : LearnOutcome) × (status : BridgeStatus)
    × (s₂ : ℕ × ℕ) × (resolve_entry host runtimes learn_power (1, 0) ≡ ok found)
    × (found.domain ≡ "rf_cloner")
    × (found.loaded ≡ true)
    × (stripped host learn_power "name" ≡ ok name)
    × IsStorable name
    × IsRead host transport status s₂
    × Captured host transport name outcome status
    × ((3, 1000) ≡ s₂)
async_learn-captures_example =
    async_learn-captures host runtimes 30 learn_power (1, 0) (3, 1000) learns
