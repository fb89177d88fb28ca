-- ===== src/Coordinator/Tests.antt =====
-- Learns of the demonstration bridge.
use esphome_rf_cloner.Base.{pos, ◌≡◌, ◌≢◌, refl, some, none, true, string_eq, arith}
use esphome_rf_cloner.Base.Dict.{lookup}
use esphome_rf_cloner.Python.Result.{ok}
use esphome_rf_cloner.Models.BridgeStatus.{BridgeStatus, by_name}
use esphome_rf_cloner.Coordinator.{LearnOutcome, async_await_learn}
use esphome_rf_cloner.Coordinator.Learning.{async_await_learn_ends}
use esphome_rf_cloner.Demo.{host, host-IsTicking, transport}

async_await_learn_ends_example : (async_await_learn host 30 transport "power" (2, 0)).0 ≢ ok none
async_await_learn_ends_example =
    async_await_learn_ends host host-IsTicking transport 30 "power" (2, 0) (omega arith)

abbrev learned : LearnOutcome
learned = record { succeeded = true; command_id = some (pos 1); name = "power"; detail = "" }

-- Armed at first, and captured a second later.
learns : async_await_learn host 30 transport "power" (2, 0) ≡ (ok (some learned), (3, 1000))
unfolding async_await_learn esphome_rf_cloner.Transport.async_status
    esphome_rf_cloner.Transport.call esphome_rf_cloner.Transport.service_name
    esphome_rf_cloner.Transport.node_name lookup string_eq esphome_rf_cloner.Python.Value.truth
    esphome_rf_cloner.Models.BridgeStatus.from_payload esphome_rf_cloner.Coordinator.poll
    esphome_rf_cloner.Coordinator.outcome_of by_name
learns = refl
