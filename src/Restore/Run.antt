-- ===== src/Restore/Run.antt =====
-- The order of the actions of a restore, where it stops, and what its success means.
use esphome_rf_cloner.Base.{arith, ◌≡◌, refl, List, [], ◌∷◌, ◌++◌, map, ap, ◌∙◌}
use esphome_rf_cloner.Python.Result.{Result, ok, err, Exception, Refusal, restore_not_possible}
use esphome_rf_cloner.Python.Exec.{Exec, lift, ◌>>=◌, ◌>>◌, for_each, >>=-eq-ok}
use esphome_rf_cloner.Python.Value.{str, int, list, of_list}
use esphome_rf_cloner.Host.{Host}
use esphome_rf_cloner.Host.Recorded.{Call, recorded}
use esphome_rf_cloner.Models.BridgeStatus.{BridgeStatus}
use esphome_rf_cloner.Models.ExportedCommand.{ExportedCommand}
use esphome_rf_cloner.Snapshot.{Snapshot}
use esphome_rf_cloner.Transport.{
  BridgeTransport, async_status, async_restore_begin, async_import, async_restore_commit,
}
use esphome_rf_cloner.Transport.Trace.{
  Act, Traced, Traced-lift, Traced-bind, Traced-for_each, Traced-run, Traced-async_status,
  Traced-async_restore_commit,
}
use esphome_rf_cloner.Restore.{check_restore_target, check_restored, async_restore}
use esphome_rf_cloner.Restore.Check.{
  CanTake, IsRestored, check_restore_target-CanTake, check_restored-IsRestored,
}

abbrev status_act : Act
status_act = ("status", [])

abbrev import_act : ExportedCommand → Act
import_act command = (
  "import",
  ("command_id", int command.command_id)
      ∷ ("name", str command.name)
      ∷ ("timings", list (of_list (map int command.timings)))
      ∷ ("gap_us", int command.gap_us)
      ∷ ("repeat_times", int command.repeat_times)
      ∷ ("frequency_hz", int command.frequency_hz)
      ∷ ("modulation", int command.modulation)
      ∷ [],
)

-- The device's protocol: read, begin, import every command in order, commit, read again.
abbrev pub restore_plan : {D : Type 0} → Snapshot D → List Act
restore_plan snapshot =
    (status_act ∷ [])
    ++ (
      "restore_begin",
      ("bridge_id", str snapshot.bridge_id)
          ∷ ("next_command_id", int snapshot.next_command_id)
          ∷ [],
    )
      ∷ (map import_act snapshot.commands
          ++ ("restore_commit", ("source_revision", int snapshot.revision) ∷ []) ∷ status_act ∷ [])

module _ (H : Host) (t : BridgeTransport) where
  Traced-import :
      (snapshot : Snapshot H.Datetime)
      → Traced t H
          (for_each (async_import (recorded H) t) snapshot.commands)
          (map import_act snapshot.commands)
  unfolding async_import
  Traced-import snapshot =
      Traced-for_each t H (async_import (recorded H) t) import_act snapshot.commands
        λ c. Traced-run t H "import" (import_act c).1

  -- From the commit on.
  abbrev ending : Snapshot H.Datetime → Exec (H.State × List Call) (Unit {0})
  ending snapshot = do
    async_restore_commit (recorded H) t snapshot.revision
    result ← async_status (recorded H) t
    lift (check_restored result snapshot)

  Traced-ending :
      (snapshot : Snapshot H.Datetime)
      → Traced t H
          (ending snapshot)
          (("restore_commit", ("source_revision", int snapshot.revision) ∷ []) ∷ status_act ∷ [])
  Traced-ending snapshot =
      Traced-bind t H (async_restore_commit (recorded H) t snapshot.revision) _ (_ ∷ [])
        (status_act ∷ []) (Traced-async_restore_commit t H snapshot.revision)
        λ _.
          Traced-bind t H (async_status (recorded H) t)
            (λ result. lift (check_restored result snapshot)) (status_act ∷ []) []
            (Traced-async_status t H) λ result. Traced-lift t H (check_restored result snapshot)

  -- A restore that returns has made the calls of its plan, all of them and in order; one that is
  -- refused, fails or is interrupted has made a beginning of them and nothing else.
  pub async_restore-Traced :
      (snapshot : Snapshot H.Datetime)
      → Traced t H (async_restore (recorded H) t snapshot) (restore_plan snapshot)
  unfolding async_restore async_restore_begin
  async_restore-Traced snapshot =
      Traced-bind t H (async_status (recorded H) t) _ (status_act ∷ []) _ (Traced-async_status t H)
        λ status.
          Traced-bind t H (lift (check_restore_target status snapshot)) _ [] _
            (Traced-lift t H (check_restore_target status snapshot))
            λ _.
              Traced-bind t H
                (async_restore_begin (recorded H) t snapshot.bridge_id snapshot.next_command_id) _
                (_ ∷ []) _ (Traced-run t H "restore_begin" _)
                λ _.
                  Traced-bind t H (for_each (async_import (recorded H) t) snapshot.commands) _
                    (map import_act snapshot.commands) _ (Traced-import snapshot)
                    λ _. Traced-ending snapshot

-- What a failed check raises is `RestoreNotPossible`.
check_restore_target-refuses :
    {D : Type 0} (status : BridgeStatus) (snapshot : Snapshot D) (e : Exception)
    → check_restore_target status snapshot ≡ err e
    → (reason : Refusal) × (e ≡ restore_not_possible reason)
unfolding check_restore_target
check_restore_target-refuses status snapshot e h = ground arith

stopped :
    (H : Host) (t : BridgeTransport) (snapshot : Snapshot H.Datetime) (s s' : H.State)
    (status : BridgeStatus) (r : Result (Unit {0}))
    → async_status H t s ≡ (ok status, s')
    → check_restore_target status snapshot ≡ r
    → ¬ CanTake status snapshot
    → (reason : Refusal) × (async_restore H t snapshot s ≡ (err (restore_not_possible reason), s'))
unfolding async_restore
stopped H t snapshot s s' status (ok _) read checked unfit =
    absurd (unfit ((check_restore_target-CanTake status snapshot).0 checked))
stopped H t snapshot s s' status (err e) read checked unfit =
    let (reason, same) = check_restore_target-refuses status snapshot e checked in
    (reason, rw (read, checked, same) refl)

-- A bridge that is read once and cannot take the snapshot, for whatever reason, is left alone: the
-- restore raises `RestoreNotPossible` and has done nothing after the read.
pub async_restore-refused :
    (H : Host) (t : BridgeTransport) (snapshot : Snapshot H.Datetime) (s : H.State) {s' : H.State}
    {status : BridgeStatus}
    → async_status H t s ≡ (ok status, s')
    → ¬ CanTake status snapshot
    → (reason : Refusal) × (async_restore H t snapshot s ≡ (err (restore_not_possible reason), s'))
async_restore-refused H t snapshot s {s'} {status} read unfit =
    stopped H t snapshot s s' status (check_restore_target status snapshot) read refl unfit

-- A restore that returns left a bridge that, read for a last time, reports the snapshot's identity
-- and all of its commands, settled, at a revision past the snapshot's.
pub async_restore-IsRestored :
    (H : Host) (t : BridgeTransport) (snapshot : Snapshot H.Datetime) (s s' : H.State)
    → async_restore H t snapshot s ≡ (ok tt, s')
    → (before : H.State) × (result : BridgeStatus) × (async_status H t before ≡ (ok result, s'))
      × IsRestored result snapshot
unfolding async_restore
async_restore-IsRestored H t snapshot s s' h =
    let (status, s₁, read, h₁) = >>=-eq-ok (async_status H t) _ s h in
    let (_, s₂, checked, h₂) = >>=-eq-ok (lift (check_restore_target status snapshot)) _ s₁ h₁ in
    let (_, s₃, begun, h₃) =
      >>=-eq-ok (async_restore_begin H t snapshot.bridge_id snapshot.next_command_id) _ s₂ h₂ in
    let (_, s₄, imported, h₄) = >>=-eq-ok (for_each (async_import H t) snapshot.commands) _ s₃ h₃ in
    let (_, s₅, committed, h₅) = >>=-eq-ok (async_restore_commit H t snapshot.revision) _ s₄ h₄ in
    let (result, s₆, last, h₆) = >>=-eq-ok (async_status H t) _ s₅ h₅ in
    (
      s₅,
      result,
      last
          ∙ ap (λ (σ : H.State). (ok result, σ)) (ap (λ (ρ : Result (Unit {0}) × H.State). ρ.1) h₆),
      (check_restored-IsRestored result snapshot).0
          (ap (λ (ρ : Result (Unit {0}) × H.State). ρ.0) h₆),
    )
