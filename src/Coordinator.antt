-- ===== src/Coordinator.antt =====
-- custom_components/rf_cloner/coordinator.py: polling, and the mutations that the integration
-- starts. The lock that serialises them is not modelled: each of them runs alone here.
pub mod Learning
mod Tests
use esphome_rf_cloner.Base.{
  ℕ, zero, suc, ◌+◌, ℤ, String, Bool, true, false, ◌&&◌, Option, none, some, ltb, if◌then◌else◌,
  ◌==◌, string_eq,
}
use esphome_rf_cloner.Base.Dict.{lookup}
use esphome_rf_cloner.Python.Result.{Result, ok, err, update_failed}
use esphome_rf_cloner.Python.Text.{is_empty}
use esphome_rf_cloner.Python.Exec.{Exec, pure, raise, ◌>>=◌, ◌>>◌, catching}
use esphome_rf_cloner.Const.{learn_poll_interval, learn_timeout}
use esphome_rf_cloner.Host.{Host}
use esphome_rf_cloner.Models.CommandInfo.{CommandInfo}
use esphome_rf_cloner.Models.BridgeStatus.{BridgeStatus, by_name}
use esphome_rf_cloner.Transport
use esphome_rf_cloner.Transport.{BridgeTransport, async_status}

pub record LearnOutcome : Type 0 where
  pub succeeded : Bool
  pub command_id : Option ℤ
  pub name : String
  pub detail : String

-- `status.last_result or status.state`
abbrev detail_of : BridgeStatus → String
detail_of status = if is_empty status.last_result then status.state else status.last_result

abbrev pub captured : String → BridgeStatus → Option CommandInfo → LearnOutcome
captured name status (some command) =
    if status.state == "captured"
    then record {
      succeeded = true;
      command_id = some command.command_id;
      name = name;
      detail = status.last_result;
    }
    else record { succeeded = false; command_id = none; name = name; detail = detail_of status }
captured name status none = record {
  succeeded = false;
  command_id = none;
  name = name;
  detail = detail_of status;
}

-- What `_async_await_learn` makes of the status that ended its polling.
unfoldable pub outcome_of : String → BridgeStatus → LearnOutcome
outcome_of name status = captured name status (lookup name (by_name status))

abbrev pub timed_out : String → LearnOutcome
timed_out name = record { succeeded = false; command_id = none; name = name; detail = "timeout" }

module _ (H : Host) where
  -- `_async_update_data`
  unfoldable pub async_update_data : BridgeTransport → Exec H.State BridgeStatus
  async_update_data t = catching (async_status H t) (λ e. raise (update_failed e))

  -- The `while` loop of `_async_await_learn`, at most `fuel` rounds of it: `none` is a loop that
  -- has not ended by then.
  unfoldable pub poll : ℕ → BridgeTransport → ℕ → BridgeStatus → Exec H.State (Option BridgeStatus)
  poll zero t deadline status s = elim (status.state == "armed" && ltb (H.monotonic s) deadline) [
    | false ↦ (ok (some status), s)
    | true ↦ (ok none, s)
  ]
  poll (suc fuel) t deadline status s =
      elim (status.state == "armed" && ltb (H.monotonic s) deadline) [
        | false ↦ (ok (some status), s)
        | true ↦
            (async_status H t >>= λ next. poll fuel t deadline next) (H.sleep learn_poll_interval s)
      ]

  -- What follows the loop: a capture that the device still has armed is cancelled.
  abbrev pub concluded :
      BridgeTransport → String → Option BridgeStatus → Exec H.State (Option LearnOutcome)
  concluded t name none = pure none
  concluded t name (some status) = elim (status.state == "armed") [
    | true ↦ (Transport.async_cancel H t >> pure (some (timed_out name)))
    | false ↦ pure (some (outcome_of name status))
  ]

  -- `_async_await_learn`, with so much fuel for its loop.
  unfoldable pub async_await_learn :
      ℕ → BridgeTransport → String → Exec H.State (Option LearnOutcome)
  async_await_learn fuel t name s =
      (async_status H t >>= λ status.
      poll fuel t (H.monotonic s + learn_timeout) status >>= λ last. concluded t name last)
        s

  abbrev pub refreshed {ℓ} : {A : Type ℓ} → A → Exec H.State A
  refreshed a s = (ok a, H.request_refresh s)

  -- `RfBridgeCoordinator.async_learn`
  unfoldable pub async_learn : ℕ → BridgeTransport → String → Exec H.State (Option LearnOutcome)
  unfolding async_await_learn
  async_learn fuel t name = do
    Transport.async_learn H t name
    outcome ← async_await_learn fuel t name
    refreshed outcome

  -- `RfBridgeCoordinator.async_rename`
  unfoldable pub async_rename : BridgeTransport → ℤ → String → Exec H.State (Unit {0})
  async_rename t command_id name = do Transport.async_rename H t command_id name; refreshed tt

  -- `RfBridgeCoordinator.async_delete`
  unfoldable pub async_delete : BridgeTransport → ℤ → String → Exec H.State (Unit {0})
  async_delete t command_id name = do Transport.async_delete H t command_id name; refreshed tt

  -- `RfBridgeCoordinator.async_send`
  unfoldable pub async_send : BridgeTransport → ℤ → Exec H.State (Unit {0})
  async_send t command_id = Transport.async_send H t command_id

  -- `RfBridgeCoordinator.async_cancel`
  unfoldable pub async_cancel : BridgeTransport → Exec H.State (Unit {0})
  async_cancel t = do Transport.async_cancel H t; refreshed tt
