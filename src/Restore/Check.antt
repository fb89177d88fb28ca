-- ===== src/Restore/Check.antt =====
-- When `check_restore_target` lets a restore begin, and what `check_restored` confirms at its end.
use esphome_rf_cloner.Base.{
  ℤ, pos, ◌≡◌, ◌↔◌, refl, false, List, [], ◌∷◌, length, All, ◌≤ℤ◌, ◌<ℤ◌, arith, int_eq, string_eq,
}
use esphome_rf_cloner.Python.Result.{ok}
use esphome_rf_cloner.Const.{revision_max}
use esphome_rf_cloner.Models.BridgeStatus.{BridgeStatus}
use esphome_rf_cloner.Models.ExportedCommand.{ExportedCommand}
use esphome_rf_cloner.Snapshot.{Snapshot}
use esphome_rf_cloner.Restore.{check_restore_target, check_restored, oversized_names}

-- A bridge that can take the snapshot: writable, not mid-restore, empty, with room for every
-- command and every waveform; and a revision that the bridge can continue from.
pub record CanTake {D : Type 0} (status : BridgeStatus) (snapshot : Snapshot D) : Type 0 where
  pub writable : status.read_only ≡ false
  pub settled : status.restore_incomplete ≡ false
  pub vacant : status.count ≡ pos 0
  pub slots : pos (length snapshot.commands) ≤ℤ status.max_commands
  pub pulses :
      All (λ (c : ExportedCommand). pos (length c.timings) ≤ℤ status.max_pulses) snapshot.commands
  pub revision_from : pos 0 ≤ℤ snapshot.revision
  pub revision_to : snapshot.revision ≤ℤ pos revision_max

oversized_names-nil :
    (limit : ℤ) (cs : List ExportedCommand)
    → (oversized_names limit cs ≡ [])
      ↔ All (λ (c : ExportedCommand). pos (length c.timings) ≤ℤ limit) cs
unfolding oversized_names
oversized_names-nil limit [] = (λ _. tt, λ _. refl)
oversized_names-nil limit (c ∷ cs) = ground (arith, oversized_names-nil limit cs)

-- A restore may begin exactly on a bridge that can take the snapshot.
pub check_restore_target-CanTake :
    {D : Type 0} (status : BridgeStatus) (snapshot : Snapshot D)
    → (check_restore_target status snapshot ≡ ok tt) ↔ CanTake status snapshot
unfolding check_restore_target
check_restore_target-CanTake status snapshot =
    ground (arith, oversized_names-nil status.max_pulses snapshot.commands)

-- A bridge that reports the snapshot's identity and all of its commands, settled, at a revision
-- past the snapshot's.
pub record IsRestored {D : Type 0} (result : BridgeStatus) (snapshot : Snapshot D) : Type 0 where
  pub same : result.bridge_id ≡ snapshot.bridge_id
  pub settled : result.restore_incomplete ≡ false
  pub whole : result.count ≡ pos (length snapshot.commands)
  pub advanced : snapshot.revision <ℤ result.revision

-- The final checks of a restore pass exactly on such a bridge.
pub check_restored-IsRestored :
    {D : Type 0} (result : BridgeStatus) (snapshot : Snapshot D)
    → (check_restored result snapshot ≡ ok tt) ↔ IsRestored result snapshot
unfolding check_restored
check_restored-IsRestored result snapshot = ground arith
