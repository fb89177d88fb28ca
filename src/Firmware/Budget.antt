-- ===== src/Firmware/Budget.antt =====
-- Which firmware configurations pass the budget, and what they are promised.
use esphome_rf_cloner.Base.{◌+◌, ◌*◌, ◌≤◌, ◌<◌, ◌≡◌, ◌↔◌, arith}
use esphome_rf_cloner.Firmware.{FirmwareConfig, accepted, validate_budget}

-- What a configuration has to satisfy.
abbrev pub IsWithinBudget : FirmwareConfig → Type 0
IsWithinBudget config =
    (40 + 44 * config.max_commands ≤ config.max_storage_bytes)
    × (config.min_pulses ≤ config.max_pulses)
    × (config.min_pulse_length < config.max_pulse_length)
    × (config.min_gap < config.max_gap)
    × (config.frame_gap_min ≤ config.max_gap)
    × (config.min_gap ≤ config.default_gap)
    × (config.default_gap ≤ config.max_gap)

-- A configuration is accepted, and then unchanged, exactly if the index of its commands fits its
-- storage and its bounds on pulses, pulse lengths and gaps are in order.
pub validate_budget-IsWithinBudget :
    (config : FirmwareConfig) → (validate_budget config ≡ accepted config) ↔ IsWithinBudget config
unfolding validate_budget
validate_budget-IsWithinBudget config = (λ h. ground arith, λ h. ground arith)
