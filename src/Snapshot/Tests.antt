-- ===== src/Snapshot/Tests.antt =====
-- Refreshes of the demonstration bridge's replica.
use esphome_rf_cloner.Base.{
  ℕ, zero, suc, ◌≡◌, ◌≢◌, refl, ◌⊎◌, inl, inr, true, false, String, some, none, List, [], ◌∷◌,
  string_eq,
}
use esphome_rf_cloner.Base.Dict.{Dict}
use esphome_rf_cloner.Python.Result.{ok, err, key_error, is_home_assistant_error}
use esphome_rf_cloner.Python.Value.{Value, null, bool, dict, field, end}
use esphome_rf_cloner.Host.{Host}
use esphome_rf_cloner.Snapshot.{
  Snapshot, SnapshotManager, as_stored, from_stored, async_refresh, export_all, snapshot_of,
}
use esphome_rf_cloner.Snapshot.Stored.{from_stored-as_stored}
use esphome_rf_cloner.Snapshot.Refresh.{
  Leaves, async_refresh-Leaves, async_refresh-unchanged, async_refresh-raises,
}
use esphome_rf_cloner.Demo.{host, host-ParsesIso, snapshot, status_in, manager, transport}

from_stored-as_stored_example : from_stored host (as_stored host snapshot) ≡ ok (some snapshot)
from_stored-as_stored_example = from_stored-as_stored host host-ParsesIso snapshot

async_refresh-Leaves_example :
    Leaves host (status_in 3) manager (3, 0) (async_refresh host (status_in 3) (manager, (3, 0)))
async_refresh-Leaves_example = async_refresh-Leaves host (status_in 3) manager (3, 0)

-- The replica of the bridge in its last phase.
abbrev current : SnapshotManager host
current = record manager { snapshot = some (record snapshot { revision = (status_in 3).revision }) }

async_refresh-unchanged_example :
    async_refresh host (status_in 3) (current, (3, 0)) ≡ (ok tt, (current, (3, 0)))
async_refresh-unchanged_example =
    async_refresh-unchanged host (status_in 3) current (3, 0)
      (inr (inr (record snapshot { revision = (status_in 3).revision }, refl, refl, refl)))

-- A bridge whose exports lack their fields.
abbrev broken : Host
broken = record host {
  async_call = λ domain service argument response s. (ok (dict (field "found" (bool true) end)), s);
}

abbrev broken_manager : SnapshotManager broken
broken_manager = record { bridge_id = "bridge-1"; transport = transport; snapshot = none }

raised : (async_refresh broken (status_in 3) (broken_manager, (3, 0))).0 ≡ err key_error
unfolding async_refresh esphome_rf_cloner.Snapshot.wants_refresh string_eq export_all
    esphome_rf_cloner.Transport.async_export esphome_rf_cloner.Transport.call
    esphome_rf_cloner.Transport.service_name esphome_rf_cloner.Transport.node_name
    esphome_rf_cloner.Base.Dict.lookup esphome_rf_cloner.Python.Value.truth
    esphome_rf_cloner.Models.ExportedCommand.from_payload is_home_assistant_error
raised = refl

async_refresh-raises_example :
    (is_home_assistant_error key_error ≡ false)
    × ((export_all broken transport (status_in 3).commands (3, 0)).0 ≡ err key_error)
    × ((async_refresh broken (status_in 3) (broken_manager, (3, 0))).1.0 ≡ broken_manager)
async_refresh-raises_example =
    async_refresh-raises broken (status_in 3) broken_manager (3, 0) raised
