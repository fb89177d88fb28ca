-- ===== src/Models/CommandInfo.antt =====
-- `CommandInfo`: one row of the registry listing, without the waveform.
use esphome_rf_cloner.Base.{ℤ, pos, String}
use esphome_rf_cloner.Python.Result.{Result, ok, ◌>>=◌}
use esphome_rf_cloner.Python.Value.{Value, int, as_int, as_str, at, get, subscriptable}

pub record CommandInfo : Type 0 where
  pub command_id : ℤ
  pub name : String
  pub pulses : ℤ

-- `CommandInfo.from_payload`
unfoldable pub from_payload : (Value → String) → Value → Result CommandInfo
unfolding subscriptable at get as_int as_str
from_payload repr v = do
  payload ← subscriptable v
  id ← at payload "id"
  command_id ← as_int id
  name ← at payload "name"
  pulses ← as_int (get payload "pulses" (int (pos 0)))
  ok (record { command_id = command_id; name = as_str repr name; pulses = pulses })
