-- ===== src/Restore.antt =====
-- custom_components/rf_cloner/restore.py: restoring a snapshot onto replacement hardware.
pub mod Check
pub mod Run
mod Tests
use esphome_rf_cloner.Base.{
  ℕ, zero, ℤ, pos, String, Bool, true, false, not, ◌&&◌, List, [], ◌∷◌, ltb_ℤ, leb_ℤ, length, map,
  keep, if◌then◌else◌, ◌==◌, int_eq, string_eq,
}
use esphome_rf_cloner.Python.Result.{
  Result, ok, err, Refusal, read_only, unfinished, occupied, too_few_slots, oversized, bad_revision,
  restore_not_possible, home_assistant_error, wrong_identity, not_committed, wrote, not_advanced,
}
use esphome_rf_cloner.Python.Exec.{Exec, lift, ◌>>=◌, ◌>>◌, for_each}
use esphome_rf_cloner.Const.{revision_max}
use esphome_rf_cloner.Host.{Host}
use esphome_rf_cloner.Models.BridgeStatus.{BridgeStatus}
use esphome_rf_cloner.Models.ExportedCommand.{ExportedCommand}
use esphome_rf_cloner.Snapshot.{Snapshot}
use esphome_rf_cloner.Transport.{
  BridgeTransport, async_status, async_restore_begin, async_import, async_restore_commit,
}

abbrev pub refuse : Refusal → Result (Unit {0})
refuse reason = err (restore_not_possible reason)

-- The names of the commands with more timings than the target holds.
unfoldable pub oversized_names : ℤ → List ExportedCommand → List String
oversized_names max_pulses commands =
    map (λ (c : ExportedCommand). c.name)
      (keep (λ c. ltb_ℤ max_pulses (pos (length c.timings))) commands)

abbrev refuse_oversized : ℤ → List String → Result (Unit {0}) → Result (Unit {0})
refuse_oversized max_pulses [] next = next
refuse_oversized max_pulses (name ∷ names) next = refuse (oversized max_pulses (name ∷ names))

-- `check_restore_target`
unfoldable pub check_restore_target : {D : Type 0} → BridgeStatus → Snapshot D → Result (Unit {0})
check_restore_target status snapshot =
    if status.read_only
    then refuse (read_only status.fault)
    else if status.restore_incomplete
    then refuse unfinished
    else if not (status.count == pos 0)
    then refuse (occupied status.count)
    else if ltb_ℤ status.max_commands (pos (length snapshot.commands))
    then refuse (too_few_slots status.max_commands (length snapshot.commands))
    else refuse_oversized status.max_pulses (oversized_names status.max_pulses snapshot.commands) (
        if leb_ℤ (pos 0) snapshot.revision && leb_ℤ snapshot.revision (pos revision_max)
        then ok tt
        else refuse (bad_revision snapshot.revision))

-- The checks of the status that is read after the commit.
unfoldable pub check_restored : {D : Type 0} → BridgeStatus → Snapshot D → Result (Unit {0})
check_restored result snapshot =
    if not (result.bridge_id == snapshot.bridge_id)
    then err (home_assistant_error (wrong_identity result.bridge_id snapshot.bridge_id))
    else if result.restore_incomplete
    then err (home_assistant_error not_committed)
    else if not (result.count == pos (length snapshot.commands))
    then err (home_assistant_error (wrote result.count (length snapshot.commands)))
    else if leb_ℤ result.revision snapshot.revision
    then err (home_assistant_error (not_advanced result.revision snapshot.revision))
    else ok tt

-- `async_restore`
unfoldable pub async_restore :
    (H : Host) → BridgeTransport → Snapshot H.Datetime → Exec H.State (Unit {0})
async_restore H t snapshot = do
  status ← async_status H t
  lift (check_restore_target status snapshot)
  async_restore_begin H t snapshot.bridge_id snapshot.next_command_id
  for_each (async_import H t) snapshot.commands
  async_restore_commit H t snapshot.revision
  result ← async_status H t
  lift (check_restored result snapshot)
