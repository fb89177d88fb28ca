-- ===== src/Restore/Tests.antt =====
-- Restores of the demonstration bridge.
use esphome_rf_cloner.Base.{ℕ, ◌≡◌, refl, ◌↔◌, string_eq, int_eq, pos, arith}
use esphome_rf_cloner.Base.Dict.{lookup}
use esphome_rf_cloner.Python.Exec.{for_each}
use esphome_rf_cloner.Python.Result.{ok, err, Refusal, restore_not_possible}
use esphome_rf_cloner.Models.BridgeStatus.{BridgeStatus}
use esphome_rf_cloner.Host.Recorded.{recorded}
use esphome_rf_cloner.Transport.{
  async_status, async_import, async_restore_begin, async_restore_commit,
}
use esphome_rf_cloner.Transport.Trace.{Traced}
use esphome_rf_cloner.Restore.{check_restore_target, check_restored, async_restore}
use esphome_rf_cloner.Restore.Check.{
  CanTake, IsRestored, check_restore_target-CanTake, check_restored-IsRestored,
}
use esphome_rf_cloner.Restore.Run.{
  restore_plan, async_restore-Traced, async_restore-refused, async_restore-IsRestored,
}
use esphome_rf_cloner.Demo.{host, transport, snapshot, status_in}

async_restore-Traced_example :
    Traced transport host (async_restore (recorded host) transport snapshot) (restore_plan snapshot)
async_restore-Traced_example = async_restore-Traced host transport snapshot

check_restore_target-CanTake_example :
    (check_restore_target (status_in 0) snapshot ≡ ok tt) ↔ CanTake (status_in 0) snapshot
check_restore_target-CanTake_example = check_restore_target-CanTake (status_in 0) snapshot

check_restored-IsRestored_example :
    (check_restored (status_in 3) snapshot ≡ ok tt) ↔ IsRestored (status_in 3) snapshot
check_restored-IsRestored_example = check_restored-IsRestored (status_in 3) snapshot

read_occupied : async_status host transport (3, 0) ≡ (ok (status_in 3), (3, 0))
unfolding async_status esphome_rf_cloner.Transport.call esphome_rf_cloner.Transport.service_name
    esphome_rf_cloner.Transport.node_name lookup string_eq esphome_rf_cloner.Python.Value.truth
    esphome_rf_cloner.Models.BridgeStatus.from_payload
read_occupied = refl

unfit : ¬ CanTake (status_in 3) snapshot
unfit t = let none_left : pos 1 ≡ pos 0 = t.vacant in ground arith

async_restore-refused_example :
    (reason : Refusal) × (async_restore host transport snapshot (3, 0)
      ≡ (err (restore_not_possible reason), (3, 0)))
async_restore-refused_example =
    async_restore-refused host transport snapshot (3, 0) read_occupied unfit

restored : async_restore host transport snapshot (0, 0) ≡ (ok tt, (3, 0))
unfolding async_restore async_status esphome_rf_cloner.Transport.call
    esphome_rf_cloner.Transport.service_name esphome_rf_cloner.Transport.node_name lookup string_eq
    esphome_rf_cloner.Python.Value.truth esphome_rf_cloner.Models.BridgeStatus.from_payload
    check_restore_target int_eq esphome_rf_cloner.Restore.oversized_names async_restore_begin
    for_each async_import async_restore_commit check_restored
restored = refl

async_restore-IsRestored_example :
    (before : ℕ × ℕ) × (result : BridgeStatus) × (async_status host transport before
      ≡ (ok result, (3, 0)))
    × IsRestored result snapshot
async_restore-IsRestored_example =
    async_restore-IsRestored host transport snapshot (0, 0) (3, 0) restored
