-- ===== src/Icons.antt =====
-- custom_components/rf_cloner/icons_suggested.py: the icon that a form suggests for a command.
-- `str.lower` is a parameter, since its tables are not written out here.
pub mod Suggested
mod Tests
use Prim.Native.Char.{Char, code}
use Prim.Native.String
use esphome_rf_cloner.Base.{
  ℕ, String, Bool, true, false, not, ◌&&◌, ◌||◌, Option, none, some, List, [], ◌∷◌, any, map,
  nat_beq, if◌then◌else◌, ◌==◌, contains, string_eq,
}
use esphome_rf_cloner.Base.Dict.{Dict, lookup}
use esphome_rf_cloner.Python.Text.{codes, is_space, is_empty, replace}
use esphome_rf_cloner.Const.{default_command_icon}

abbrev pub by_target_type : Dict String String
by_target_type =
    ("fan", "mdi:fan")
    ∷ ("gate", "mdi:gate")
    ∷ ("light", "mdi:lightbulb")
    ∷ ("cover", "mdi:window-shutter")
    ∷ ("tv", "mdi:television")
    ∷ ("air_conditioner", "mdi:air-conditioner")
    ∷ []

abbrev pub by_keyword : List (List String × String)
by_keyword =
    ("speed up" ∷ "speedup" ∷ "faster" ∷ "speed plus" ∷ [], "mdi:fan-plus")
    ∷ ("speed down" ∷ "speeddown" ∷ "slower" ∷ "speed minus" ∷ [], "mdi:fan-minus")
    ∷ ("speed 1" ∷ "speed1" ∷ "low" ∷ [], "mdi:fan-speed-1")
    ∷ ("speed 2" ∷ "speed2" ∷ "medium" ∷ "med" ∷ [], "mdi:fan-speed-2")
    ∷ ("speed 3" ∷ "speed3" ∷ "high" ∷ "max" ∷ [], "mdi:fan-speed-3")
    ∷ ("vol up" ∷ "volume up" ∷ "vol plus" ∷ [], "mdi:volume-plus")
    ∷ ("vol down" ∷ "volume down" ∷ "vol minus" ∷ [], "mdi:volume-minus")
    ∷ ("light" ∷ "lamp" ∷ "luz" ∷ [], "mdi:lightbulb")
    ∷ ("power" ∷ "on off" ∷ "onoff" ∷ "toggle" ∷ [], "mdi:power")
    ∷ ("open" ∷ "abrir" ∷ [], "mdi:gate-open")
    ∷ ("close" ∷ "shut" ∷ "fechar" ∷ [], "mdi:gate")
    ∷ ("stop" ∷ "halt" ∷ "parar" ∷ [], "mdi:stop")
    ∷ ("up" ∷ "raise" ∷ "subir" ∷ [], "mdi:arrow-up")
    ∷ ("down" ∷ "lower" ∷ "descer" ∷ [], "mdi:arrow-down")
    ∷ ("fan" ∷ "ventilador" ∷ [], "mdi:fan")
    ∷ ("cool" ∷ "cold" ∷ [], "mdi:snowflake")
    ∷ ("heat" ∷ "warm" ∷ [], "mdi:fire")
    ∷ ("swing" ∷ "oscillate" ∷ [], "mdi:swap-vertical")
    ∷ ("play" ∷ [], "mdi:play")
    ∷ ("pause" ∷ [], "mdi:pause")
    ∷ []

abbrev pub cover_like : List String
cover_like = "cover" ∷ []

abbrev pub cover_overrides : Dict String String
cover_overrides =
    ("mdi:gate-open", "mdi:window-shutter-open") ∷ ("mdi:gate", "mdi:window-shutter") ∷ []

abbrev starts : List ℕ → List ℕ → Bool
starts [] s = true
starts (c ∷ p) [] = false
starts (c ∷ p) (d ∷ s) = nat_beq c d && starts p s

-- `p in s`, for code points
unfoldable pub is_within : List ℕ → List ℕ → Bool
is_within p [] = starts p []
is_within p (c ∷ s) = starts p (c ∷ s) || is_within p s

-- `s.split()`, each word followed by one space. `begun` tells whether a word is open.
unfoldable pub spaced : Bool → String → String
unfolding is_space
spaced begun String.[] = if begun then " " else ""
spaced begun (String.◌∷◌ c s) =
    let more = spaced true s in
    let after = spaced false s in
    if is_space (code c) then (if begun then String.◌∷◌ " " after else after) else String.◌∷◌ c more

abbrev between_spaces : String → String
between_spaces words = if is_empty words then "  " else String.◌∷◌ " " words

module _ (lower : String → String) where
  -- `_normalise`: the words of the name, one space before each of them and one at the end.
  unfoldable pub normalise : String → String
  unfolding spaced replace
  normalise name =
      between_spaces
        (spaced false (replace b'.' " " (replace b'-' " " (replace b'_' " " (lower name)))))

  unfoldable pub is_named : String → List String → Bool
  unfolding is_within
  is_named haystack keywords =
      any
        (λ keyword. is_within (codes (String.◌++◌ " " (String.◌++◌ keyword " "))) (codes haystack))
        keywords

  abbrev pub or_else : String → Option String → String
  or_else default none = default
  or_else default (some icon) = icon

  abbrev pub for_target : String → String → String
  for_target target_type icon =
      if contains cover_like target_type then or_else icon (lookup icon cover_overrides) else icon

  -- The loop of `suggest_icon` over the keywords that are left.
  unfoldable pub first_hit : String → String → List (List String × String) → String
  unfolding is_named lookup
  first_hit haystack target_type [] =
      or_else default_command_icon (lookup target_type by_target_type)
  first_hit haystack target_type ((keywords, icon) ∷ rest) =
      let later = first_hit haystack target_type rest in
      if is_named haystack keywords then for_target target_type icon else later

  -- `suggest_icon`
  unfoldable pub suggest_icon : String → String → String
  unfolding normalise first_hit
  suggest_icon command_name target_type = first_hit (normalise command_name) target_type by_keyword
