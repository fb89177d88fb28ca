-- ===== src/Firmware/Tests.antt =====
-- The defaults of the firmware's configuration, and one action.
use esphome_rf_cloner.Base.{◌≡◌, ◌↔◌, refl, true, pos, [], ◌∷◌, All, arith}
use esphome_rf_cloner.Python.Result.{ok}
use esphome_rf_cloner.Python.Value.{str, int}
use esphome_rf_cloner.Firmware.{FirmwareConfig, accepted, validate_budget, fnv1a_32}
use esphome_rf_cloner.Firmware.Budget.{IsWithinBudget, validate_budget-IsWithinBudget}
use esphome_rf_cloner.Firmware.Generate.{default_config, in_ranges, setters, rf_cloner_send_to_code}
use esphome_rf_cloner.Firmware.Widths.{IsModerate, Fits, setters-Fits}

abbrev defaults : FirmwareConfig
defaults = default_config "rf_bridge"

validate_budget-IsWithinBudget_example :
    (validate_budget defaults ≡ accepted defaults) ↔ IsWithinBudget defaults
validate_budget-IsWithinBudget_example = validate_budget-IsWithinBudget defaults

accepts : validate_budget defaults ≡ accepted defaults
unfolding validate_budget
accepts = refl

-- The published values of the hash for these texts.
hash_empty : fnv1a_32 "" ≡ 0x811c9dc5
unfolding fnv1a_32
hash_empty = refl

hash_letter : fnv1a_32 "a" ≡ 0xe40c292c
unfolding fnv1a_32
hash_letter = refl

ranged : in_ranges defaults ≡ true
unfolding in_ranges
ranged = refl

moderate : IsModerate defaults
moderate = record {
  tolerance = omega arith;
  max_pulse_length = omega arith;
  max_gap = omega arith;
  settle_time = omega arith;
  learn_timeout = omega arith;
  frequency = omega arith;
}

setters-Fits_example : All Fits (setters defaults)
setters-Fits_example = setters-Fits defaults ranged accepts moderate

sends :
    rf_cloner_send_to_code (("name", str "fan") ∷ ("gap", int (pos 9)) ∷ [])
    ≡ ok (("set_name", str "fan") ∷ ("set_gap", int (pos 9)) ∷ [])
unfolding rf_cloner_send_to_code esphome_rf_cloner.Python.Value.at
    esphome_rf_cloner.Base.Dict.lookup esphome_rf_cloner.Base.string_eq
sends = refl
