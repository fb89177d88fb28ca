-- ===== src/Firmware/Widths.antt =====
-- Every value that the code generation sets fits the parameter that takes it.
use esphome_rf_cloner.Base.{ℕ, ◌≤◌, ◌<◌, ◌≡◌, ◌^◌, String, true, List, [], ◌∷◌, All, arith}
use esphome_rf_cloner.Firmware.{
  FirmwareConfig, accepted, validate_budget, hash_bytes, fnv1a_32, encode,
}
use esphome_rf_cloner.Firmware.Budget.{validate_budget-IsWithinBudget}
use esphome_rf_cloner.Firmware.Generate.{in_ranges, Setter, setters}
use esphome_rf_cloner.Python.Text.{codes}

-- What the schema leaves open: the percents, the hertz, and the times that no other one bounds.
pub record IsModerate (config : FirmwareConfig) : Type 0 where
  pub tolerance : config.tolerance < 2 ^ 8
  pub max_pulse_length : config.max_pulse_length < 2 ^ 32
  pub max_gap : config.max_gap < 2 ^ 32
  pub settle_time : config.settle_time < 2 ^ 32
  pub learn_timeout : config.learn_timeout < 2 ^ 32
  pub frequency : config.frequency < 2 ^ 32

hash_bytes-bound : (bytes : List ℕ) (value : ℕ) → value < 2 ^ 32 → hash_bytes value bytes < 2 ^ 32
unfolding hash_bytes
hash_bytes-bound [] value h = h
hash_bytes-bound (byte ∷ bytes) value h = hash_bytes-bound bytes _ (omega arith)

fnv1a_32-bound : (text : String) → fnv1a_32 text < 2 ^ 32
unfolding fnv1a_32
fnv1a_32-bound text = hash_bytes-bound (encode (codes text)) 0x811c9dc5 (omega arith)

-- What the ranges of the schema say.
abbrev InRanges : FirmwareConfig → Type 0
InRanges config =
    (config.max_commands ≤ 255)
    × (config.max_pulses ≤ 2048)
    × (config.max_storage_bytes ≤ 65535)
    × (config.min_repeats ≤ 32)
    × (config.default_repeat_times ≤ 1000)

in_ranges-InRanges : (config : FirmwareConfig) → in_ranges config ≡ true → InRanges config
unfolding in_ranges
in_ranges-InRanges config h = ground arith

abbrev pub Fits : Setter → Type 0
Fits s = s.argument < 2 ^ s.bits

-- Of a configuration that is in the ranges of the schema and within the budget, and whose tolerance,
-- longest pulse, longest gap, settle time, learn timeout and frequency are moderate, every value
-- that is set fits the parameter of its setter. None is cut to the width of the parameter.
pub setters-Fits :
    (config : FirmwareConfig)
    → in_ranges config ≡ true
    → validate_budget config ≡ accepted config
    → IsModerate config
    → All Fits (setters config)
unfolding setters
setters-Fits config ranged budgeted m =
    let (commands, pulses, storage, repeats, times) = in_ranges-InRanges config ranged in
    let (_, counts, lengths, gaps, frame, low, high) =
      (validate_budget-IsWithinBudget config).0 budgeted in
    let salt = fnv1a_32-bound config.id in
    ground (
      arith, m.tolerance, m.max_pulse_length, m.max_gap, m.settle_time, m.learn_timeout,
      m.frequency,
    )
