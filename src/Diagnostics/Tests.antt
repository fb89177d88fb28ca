-- ===== src/Diagnostics/Tests.antt =====
-- A test of the report.
use esphome_rf_cloner.Base.{pos, String, ◌≡◌, refl, none, some, [], ◌∷◌, true}
use esphome_rf_cloner.Base.Dict.{lookup}
use esphome_rf_cloner.Python.Value.{Value, bool, str, dict, of_dict}
use esphome_rf_cloner.Diagnostics.{transport_report}
use esphome_rf_cloner.Demo.{host, transport}

reachable :
    transport_report host transport (1, 0)
    ≡ dict (
        of_dict (
          ("node_name", str "rf-bridge")
          ∷ ("available", bool true)
          ∷ ("supports_delete_id", bool true)
          ∷ []))
unfolding transport_report esphome_rf_cloner.Transport.node_name
    esphome_rf_cloner.Transport.available esphome_rf_cloner.Transport.supports lookup
    esphome_rf_cloner.Transport.service_name esphome_rf_cloner.Base.string_eq
    esphome_rf_cloner.Python.Value.truth esphome_rf_cloner.Python.Value.as_str
reachable = refl
