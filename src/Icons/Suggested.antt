-- ===== src/Icons/Suggested.antt =====
-- Which icons can be suggested.
use esphome_rf_cloner.Base.{
  String, ◌≡◌, ◌≢◌, refl, Bool, true, false, List, [], ◌∷◌, All, string_eq, ◌==◌, if◌then◌else◌,
  arith, any, ◌||◌,
}
use esphome_rf_cloner.Base.Dict.{lookup}
use esphome_rf_cloner.Icons.{
  by_keyword, by_target_type, is_named, for_target, or_else, normalise, first_hit, suggest_icon,
}
use esphome_rf_cloner.Const.{default_command_icon}

hit : (P : String → Type 0) {a b : String} (found : Bool) → P a → P b → P (if found then a else b)
hit P true p q = p
hit P false p q = q

module _ (lower : String → String) where
  first_hit-All :
      (P : String → Type 0) (haystack target_type : String) (table : List (List String × String))
      → All (λ (row : List String × String). P (for_target lower target_type row.1)) table
      → P (or_else lower default_command_icon (lookup target_type by_target_type))
      → P (first_hit lower haystack target_type table)
  unfolding first_hit
  first_hit-All P haystack target_type [] rows last = last
  first_hit-All P haystack target_type ((keywords, icon) ∷ table) rows last =
      hit P (is_named lower haystack keywords) rows.0
        (first_hit-All P haystack target_type table rows.1 last)

  abbrev is_gate : String → Bool
  is_gate icon = icon == "mdi:gate-open" || icon == "mdi:gate"

  rows_of :
      (target_type : String) (table : List (List String × String))
      → any (λ (row : List String × String). is_gate (for_target lower target_type row.1)) table
        ≡ false
      → All
          (λ (row : List String × String). is_gate (for_target lower target_type row.1) ≡ false)
          table
  rows_of target_type [] h = tt
  rows_of target_type (row ∷ table) h = (ground arith, rows_of target_type table (ground arith))

  no_gate_row :
      any (λ (row : List String × String). is_gate (for_target lower "cover" row.1)) by_keyword
      ≡ false
  unfolding string_eq lookup
  no_gate_row = refl

  no_gate_default :
      is_gate (or_else lower default_command_icon (lookup "cover" by_target_type)) ≡ false
  unfolding string_eq lookup
  no_gate_default = refl

  not_gate : (icon : String) → is_gate icon ≡ false → (icon ≢ "mdi:gate-open") × (icon ≢ "mdi:gate")
  not_gate icon h = (λ e. ground arith, λ e. ground arith)

  -- For a shutter `suggest_icon` never suggests the icon of a gate, open or closed, whatever the
  -- command is called and whatever `lower` makes of its name.
  pub suggest_icon-cover :
      (command_name : String)
      → (suggest_icon lower command_name "cover" ≢ "mdi:gate-open")
        × (suggest_icon lower command_name "cover" ≢ "mdi:gate")
  unfolding suggest_icon
  suggest_icon-cover command_name =
      not_gate (first_hit lower (normalise lower command_name) "cover" by_keyword) (
        first_hit-All (λ icon. is_gate icon ≡ false) (normalise lower command_name) "cover"
          by_keyword (rows_of "cover" by_keyword no_gate_row) no_gate_default)
