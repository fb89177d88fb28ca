-- ===== src/Models/Tests.antt =====
-- Payloads and names of the demonstration bridge.
use esphome_rf_cloner.Base.{◌≡◌, ◌↔◌, refl, some, none}
use esphome_rf_cloner.Models.Names.{
  IsStorable, validate_command_name, validate_command_name-IsStorable,
}

validate_command_name-IsStorable_example :
    (validate_command_name "sala.power-1" ≡ none) ↔ IsStorable "sala.power-1"
validate_command_name-IsStorable_example = validate_command_name-IsStorable "sala.power-1"

invalid : validate_command_name "on/off" ≡ some "name_invalid"
unfolding validate_command_name esphome_rf_cloner.Models.Names.is_name_char
invalid = refl
