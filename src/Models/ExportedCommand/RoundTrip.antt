-- ===== src/Models/ExportedCommand/RoundTrip.antt =====
-- An exported command survives the portable wire shape.
use esphome_rf_cloner.Base.{ℤ, String, ◌≡◌, refl, some, List, [], ◌∷◌, map, string_eq}
use esphome_rf_cloner.Base.Dict.{lookup}
use esphome_rf_cloner.Python.Result.{ok, collect}
use esphome_rf_cloner.Python.Value.{Value, int, dict, of_dict, to_list-of_list, as_int}
use esphome_rf_cloner.Models.ExportedCommand.{ExportedCommand, from_payload, as_dict}

collect-as_int : (ts : List ℤ) → collect as_int (map int ts) ≡ ok ts
unfolding collect as_int
collect-as_int [] = refl
collect-as_int (t ∷ ts) = rw (collect-as_int ts)

-- Reading back what `as_dict` renders gives the same command, timings and all.
pub from_payload-as_dict :
    (repr : Value → String) (command : ExportedCommand)
    → from_payload repr (dict (of_dict (as_dict command))) ≡ ok (some command)
unfolding from_payload as_dict lookup string_eq
from_payload-as_dict repr command = rw (to_list-of_list, collect-as_int) refl
