-- ===== src/Models/ExportedCommand.antt =====
-- `ExportedCommand`: the portable representation of one command, as `rf_export` returns it.
pub mod RoundTrip
use esphome_rf_cloner.Base.{
  ℕ, ℤ, pos, String, Bool, true, false, Option, none, some, List, [], ◌∷◌, map, length, string_eq,
}
use esphome_rf_cloner.Base.Dict.{Dict}
use esphome_rf_cloner.Python.Result.{Result, ok, ◌>>=◌, collect}
use esphome_rf_cloner.Python.Value.{
  Value, null, bool, int, str, list, nil, of_list, as_int, as_str, truth, at, get, iterate, mapping,
}

pub record ExportedCommand : Type 0 where
  pub schema : ℤ
  pub bridge_id : String
  pub command_id : ℤ
  pub name : String
  pub gap_us : ℤ
  pub repeat_times : ℤ
  pub frequency_hz : ℤ
  pub modulation : ℤ
  pub timings : List ℤ

-- The rest of `from_payload`, for a payload whose `found` is true.
unfoldable pub from_found : (Value → String) → Dict String Value → Result ExportedCommand
unfolding at get as_int as_str collect iterate
from_found repr payload = do
  schema ← as_int (get payload "schema" (int (pos 1)))
  bridge_id ← at payload "bridge_id"
  id_value ← at payload "command_id"
  command_id ← as_int id_value
  name ← at payload "name"
  gap_value ← at payload "gap_us"
  gap_us ← as_int gap_value
  repeat_value ← at payload "repeat_times"
  repeat_times ← as_int repeat_value
  frequency_value ← at payload "frequency_hz"
  frequency_hz ← as_int frequency_value
  modulation_value ← at payload "modulation"
  modulation ← as_int modulation_value
  rows ← iterate (get payload "timings" (list nil))
  timings ← collect as_int rows
  ok (record {
    schema = schema;
    bridge_id = as_str repr bridge_id;
    command_id = command_id;
    name = as_str repr name;
    gap_us = gap_us;
    repeat_times = repeat_times;
    frequency_hz = frequency_hz;
    modulation = modulation;
    timings = timings;
  })

-- `ExportedCommand.from_payload`
unfoldable pub from_payload : (Value → String) → Value → Result (Option ExportedCommand)
unfolding mapping get truth from_found
from_payload repr v = do
  payload ← mapping v
  elim (truth (get payload "found" null)) [
    | false ↦ ok none
    | true ↦ do command ← from_found repr payload; ok (some command)
  ]

-- `ExportedCommand.as_dict`
unfoldable pub as_dict : ExportedCommand → Dict String Value
as_dict command =
    ("schema", int command.schema)
    ∷ ("found", bool true)
    ∷ ("bridge_id", str command.bridge_id)
    ∷ ("command_id", int command.command_id)
    ∷ ("name", str command.name)
    ∷ ("pulses", int (pos (length command.timings)))
    ∷ ("gap_us", int command.gap_us)
    ∷ ("repeat_times", int command.repeat_times)
    ∷ ("frequency_hz", int command.frequency_hz)
    ∷ ("modulation", int command.modulation)
    ∷ ("timings", list (of_list (map int command.timings)))
    ∷ []
