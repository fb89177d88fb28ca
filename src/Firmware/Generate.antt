-- ===== src/Firmware/Generate.antt =====
-- components/rf_cloner/__init__.py: the integer ranges of the schema, and the setters that the code
-- generation calls, in its order, with the widths that rf_cloner.h gives their parameters. The
-- registration of components, listeners and automations only calls ESPHome.
use esphome_rf_cloner.Base.{
  ℕ, String, Bool, ◌&&◌, Option, none, some, List, [], ◌∷◌, ◌++◌, all, leb, string_eq,
}
use esphome_rf_cloner.Base.Dict.{Dict, lookup}
use esphome_rf_cloner.Python.Result.{Result, ok, ◌>>=◌}
use esphome_rf_cloner.Python.Value.{Value, at}
use esphome_rf_cloner.Firmware.{FirmwareConfig, fnv1a_32}

-- An option of `CONFIG_SCHEMA` that is a `cv.int_range`.
pub record IntOption : Type 0 where
  pub key : String
  pub default : ℕ
  pub min : ℕ
  pub max : ℕ
  pub read : FirmwareConfig → ℕ

abbrev option : String → ℕ → ℕ → ℕ → (FirmwareConfig → ℕ) → IntOption
option key default min max read = record {
  key = key;
  default = default;
  min = min;
  max = max;
  read = read;
}

-- The `cv.int_range` options of `CONFIG_SCHEMA`.
abbrev pub int_options : List IntOption
int_options =
    option "max_commands" 16 1 255 (λ c. c.max_commands)
    ∷ option "max_pulses" 128 4 2048 (λ c. c.max_pulses)
    ∷ option "max_storage_bytes" 12288 64 65535 (λ c. c.max_storage_bytes)
    ∷ option "min_pulses" 8 2 2048 (λ c. c.min_pulses)
    ∷ option "min_repeats" 3 2 32 (λ c. c.min_repeats)
    ∷ option "default_repeat_times" 20 1 1000 (λ c. c.default_repeat_times)
    ∷ []

-- The configuration that sets no option of `CONFIG_SCHEMA`.
abbrev pub default_config : String → FirmwareConfig
default_config id = record {
  max_commands = 16;
  max_pulses = 128;
  min_pulses = 8;
  max_storage_bytes = 12288;
  min_pulse_length = 100;
  max_pulse_length = 100000;
  frame_gap_min = 3000;
  default_gap = 10000;
  min_gap = 1000;
  max_gap = 200000;
  tolerance = 25;
  min_repeats = 3;
  settle_time = 800;
  learn_timeout = 15000;
  default_repeat_times = 20;
  frequency = 433920000;
  id = id;
}

-- Whether every integer option is in its range.
unfoldable pub in_ranges : FirmwareConfig → Bool
in_ranges config =
    all (λ (o : IntOption). leb o.min (o.read config) && leb (o.read config) o.max) int_options

-- A setter that is called, the width of its parameter in bits, and the argument.
pub record Setter : Type 0 where
  pub method : String
  pub bits : ℕ
  pub argument : ℕ

abbrev set : String → ℕ → ℕ → Setter
set method bits argument = record { method = method; bits = bits; argument = argument }

-- The setters of `to_code`.
unfoldable pub setters : FirmwareConfig → List Setter
setters config =
    set "set_max_commands" 8 config.max_commands
    ∷ set "set_max_pulses" 16 config.max_pulses
    ∷ set "set_max_storage_bytes" 32 config.max_storage_bytes
    ∷ set "set_min_pulses" 16 config.min_pulses
    ∷ set "set_min_pulse_us" 32 config.min_pulse_length
    ∷ set "set_max_pulse_us" 32 config.max_pulse_length
    ∷ set "set_tolerance_percent" 8 config.tolerance
    ∷ set "set_min_repeats" 8 config.min_repeats
    ∷ set "set_frame_gap_min_us" 32 config.frame_gap_min
    ∷ set "set_settle_ms" 32 config.settle_time
    ∷ set "set_learn_timeout_ms" 32 config.learn_timeout
    ∷ set "set_default_repeat_times" 16 config.default_repeat_times
    ∷ set "set_default_gap_us" 32 config.default_gap
    ∷ set "set_min_gap_us" 32 config.min_gap
    ∷ set "set_max_gap_us" 32 config.max_gap
    ∷ set "set_frequency_hz" 32 config.frequency
    ∷ set "set_key_salt" 32 (fnv1a_32 config.id)
    ∷ []

-- The setters of an action, each with its templated value.
abbrev pub Calls : Type 0
Calls = List (String × Value)

abbrev required : String → String → Dict String Value → Result Calls
required key method config = do v ← at config key; ok ((method, v) ∷ [])

abbrev set_if : String → Option Value → Calls
set_if method none = []
set_if method (some v) = (method, v) ∷ []

-- `if key in config`
abbrev optional : String → String → Dict String Value → Calls
optional key method config = set_if method (lookup key config)

abbrev replay : Dict String Value → Calls
replay config = optional "repeat_times" "set_repeat_times" config ++ optional "gap" "set_gap" config

unfoldable pub rf_cloner_learn_to_code : Dict String Value → Result Calls
rf_cloner_learn_to_code config = do
  named ← required "name" "set_name" config
  ok (named ++ optional "timeout" "set_timeout" config)

unfoldable pub rf_cloner_send_to_code : Dict String Value → Result Calls
rf_cloner_send_to_code config = do
  named ← required "name" "set_name" config
  ok (named ++ replay config)

unfoldable pub rf_cloner_send_id_to_code : Dict String Value → Result Calls
rf_cloner_send_id_to_code config = do
  identified ← required "command_id" "set_command_id" config
  ok (identified ++ replay config)

unfoldable pub rf_cloner_rename_to_code : Dict String Value → Result Calls
rf_cloner_rename_to_code config = do
  identified ← required "command_id" "set_command_id" config
  named ← required "name" "set_name" config
  ok (identified ++ named)

unfoldable pub rf_cloner_delete_to_code : Dict String Value → Result Calls
rf_cloner_delete_to_code config = required "name" "set_name" config

unfoldable pub rf_cloner_delete_id_to_code : Dict String Value → Result Calls
rf_cloner_delete_id_to_code config = required "command_id" "set_command_id" config

-- The cancel, clear and factory reset actions set nothing.
unfoldable pub rf_cloner_simple_action_to_code : Dict String Value → Result Calls
rf_cloner_simple_action_to_code config = ok []
