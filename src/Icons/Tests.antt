-- ===== src/Icons/Tests.antt =====
-- Suggestions for names that are written in small letters already.
use esphome_rf_cloner.Base.{◌≡◌, ◌≢◌, refl}
use esphome_rf_cloner.Icons.{suggest_icon}
use esphome_rf_cloner.Icons.Suggested.{suggest_icon-cover}

suggest_icon-cover_example :
    (suggest_icon (λ s. s) "sala.open" "cover" ≢ "mdi:gate-open")
    × (suggest_icon (λ s. s) "sala.open" "cover" ≢ "mdi:gate")
suggest_icon-cover_example = suggest_icon-cover (λ s. s) "sala.open"

opened : suggest_icon (λ s. s) "sala.open" "cover" ≡ "mdi:window-shutter-open"
unfolding suggest_icon esphome_rf_cloner.Base.string_eq
opened = refl

speed_up : suggest_icon (λ s. s) "fan_speed-up" "fan" ≡ "mdi:fan-plus"
unfolding suggest_icon esphome_rf_cloner.Base.string_eq
speed_up = refl

unnamed : suggest_icon (λ s. s) "" "generic" ≡ "mdi:remote"
unfolding suggest_icon esphome_rf_cloner.Base.string_eq
unnamed = refl
