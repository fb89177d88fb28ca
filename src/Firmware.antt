-- ===== src/Firmware.antt =====
-- components/rf_cloner/__init__.py: the storage budget that the firmware's configuration is checked
-- against before it is built, and the hash that salts its storage keys. The log message about the
-- worst case is not modelled. Firmware/Generate.antt has the ranges of the schema and the calls that
-- are generated.
pub mod Budget
pub mod Generate
pub mod Widths
mod Tests
use Prim.Native.Nat.{bit_xor}
use esphome_rf_cloner.Base.{
  ℕ, ◌+◌, ◌*◌, ◌/◌, ◌%◌, ◌^◌, String, Bool, true, false, not, ◌&&◌, Option, none, some, List, [],
  ◌∷◌, ◌++◌, ltb, leb, nat_beq, if◌then◌else◌,
}
use esphome_rf_cloner.Python.Text.{codes}

-- The values of a configuration: counts, bytes, percents, hertz, the lengths of pulses and gaps in
-- microseconds, the other two times in milliseconds, and the text of the id.
pub record FirmwareConfig : Type 0 where
  pub max_commands : ℕ
  pub max_pulses : ℕ
  pub min_pulses : ℕ
  pub max_storage_bytes : ℕ
  pub min_pulse_length : ℕ
  pub max_pulse_length : ℕ
  pub frame_gap_min : ℕ
  pub default_gap : ℕ
  pub min_gap : ℕ
  pub max_gap : ℕ
  pub tolerance : ℕ
  pub min_repeats : ℕ
  pub settle_time : ℕ
  pub learn_timeout : ℕ
  pub default_repeat_times : ℕ
  pub frequency : ℕ
  pub id : String

-- The `cv.Invalid` errors of `_validate_budget`, in the order of their checks.
pub data Invalid : Type 0 where
  index_too_large : Invalid
  pulse_counts_reversed : Invalid
  pulse_lengths_reversed : Invalid
  gaps_reversed : Invalid
  frame_gap_too_long : Invalid
  default_gap_outside : Invalid

abbrev pub header_bytes : ℕ
header_bytes = 10

abbrev pub meta_bytes : ℕ
meta_bytes = 28

abbrev pub slot_bytes : ℕ
slot_bytes = 44

abbrev pub crc_bytes : ℕ
crc_bytes = 2

abbrev pub index_bytes : FirmwareConfig → ℕ
index_bytes config = header_bytes + meta_bytes + config.max_commands * slot_bytes + crc_bytes

pub data Verdict : Type 0 where
  invalid : Invalid → Verdict
  accepted : FirmwareConfig → Verdict

-- `_validate_budget`
unfoldable pub validate_budget : FirmwareConfig → Verdict
validate_budget config =
    if ltb config.max_storage_bytes (index_bytes config)
    then invalid index_too_large
    else if ltb config.max_pulses config.min_pulses
    then invalid pulse_counts_reversed
    else if leb config.max_pulse_length config.min_pulse_length
    then invalid pulse_lengths_reversed
    else if leb config.max_gap config.min_gap
    then invalid gaps_reversed
    else if ltb config.max_gap config.frame_gap_min
    then invalid frame_gap_too_long
    else if not (leb config.min_gap config.default_gap && leb config.default_gap config.max_gap)
    then invalid default_gap_outside
    else accepted config

-- `_final_validate`, of the transmitter's `carrier_duty_percent`, which ESPHome looks up: whether
-- the configuration passes.
unfoldable pub final_validate : Option ℕ → Bool
final_validate none = true
final_validate (some duty_percent) = nat_beq duty_percent 100

-- `chr(c).encode()`
unfoldable pub utf8 : ℕ → List ℕ
utf8 c =
    if ltb c 0x80
    then c ∷ []
    else if ltb c 0x800
    then (0xc0 + c / 64) ∷ (0x80 + c % 64) ∷ []
    else if ltb c 0x10000
    then (0xe0 + c / 4096) ∷ (0x80 + c / 64 % 64) ∷ (0x80 + c % 64) ∷ []
    else (0xf0 + c / 262144) ∷ (0x80 + c / 4096 % 64) ∷ (0x80 + c / 64 % 64) ∷ (0x80 + c % 64) ∷ []

unfoldable pub hash_bytes : ℕ → List ℕ → ℕ
hash_bytes value [] = value
hash_bytes value (byte ∷ bytes) = hash_bytes ((bit_xor value byte * 0x01000193) % 2 ^ 32) bytes

unfoldable pub encode : List ℕ → List ℕ
unfolding utf8
encode [] = []
encode (c ∷ cs) = utf8 c ++ encode cs

-- `_fnv1a_32`
unfoldable pub fnv1a_32 : String → ℕ
unfolding hash_bytes encode
fnv1a_32 text = hash_bytes 0x811c9dc5 (encode (codes text))
