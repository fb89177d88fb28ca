-- ===== src/Snapshot/Stored.antt =====
-- A stored snapshot reads back as itself, and loading one changes nothing but the replica.
use mathlib.Core.Path.{subst}
use esphome_rf_cloner.Base.{String, ◌≡◌, refl, Option, none, some, List, [], ◌∷◌, map, string_eq}
use esphome_rf_cloner.Base.Dict.{Dict, lookup}
use esphome_rf_cloner.Python.Result.{Result, ok, err, ◌>>=◌}
use esphome_rf_cloner.Python.Value.{
  Value, dict, of_dict, to_list-of_list, as_int, as_str, at, iterate,
}
use esphome_rf_cloner.Host.{Host, ParsesIso}
use esphome_rf_cloner.Models.ExportedCommand.{ExportedCommand, as_dict}
use esphome_rf_cloner.Models.ExportedCommand.RoundTrip.{from_payload-as_dict}
use esphome_rf_cloner.Snapshot.{
  Snapshot, SnapshotManager, as_stored, from_stored, read_commands, async_load, loaded, store_key,
}

abbrev stored_command : ExportedCommand → Value
stored_command c = dict (of_dict (as_dict c))

module _ (H : Host) where
  read_commands-map :
      (cs : List ExportedCommand) → read_commands H (map stored_command cs) ≡ ok (some cs)
  unfolding read_commands
  read_commands-map [] = refl
  read_commands-map (c ∷ cs) = rw (from_payload-as_dict H.repr c, read_commands-map cs) refl

  -- A snapshot survives storage, waveforms included, as far as a time that was written is read back.
  pub from_stored-as_stored :
      ParsesIso H
      → (snapshot : Snapshot H.Datetime) → from_stored H (as_stored H snapshot) ≡ ok (some snapshot)
  unfolding from_stored as_stored at lookup string_eq iterate as_int as_str
  from_stored-as_stored iso snapshot =
      rw (iso snapshot.captured_at, to_list-of_list, read_commands-map) refl

  abbrev Kept : SnapshotManager H → Result (SnapshotManager H) → Type 0
  Kept m (err e) = Unit {0}
  Kept m (ok m') = (m'.bridge_id ≡ m.bridge_id) × (m'.transport ≡ m.transport)

  read-Kept :
      (m : SnapshotManager H) (r : Result (Option (Snapshot H.Datetime)))
      → Kept m (do snapshot ← r; ok (record m { snapshot = snapshot }))
  read-Kept m (err e) = tt
  read-Kept m (ok snapshot) = (refl, refl)

  loaded-Kept : (m : SnapshotManager H) (o : Option (Dict String Value)) → Kept m (loaded H m o)
  loaded-Kept m none = (refl, refl)
  loaded-Kept m (some stored) = read-Kept m (from_stored H stored)

  -- Loading keeps whose replica this is, and where its calls go.
  pub async_load-kept :
      (m : SnapshotManager H) (s : H.State) {m' : SnapshotManager H}
      → async_load H m s ≡ ok m'
      → (m'.bridge_id ≡ m.bridge_id) × (m'.transport ≡ m.transport)
  unfolding async_load
  async_load-kept m s h =
      subst (Kept m) h (loaded-Kept m (H.store_load s (store_key H m.bridge_id)))
