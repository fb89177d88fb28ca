-- ===== src/Models/Names.antt =====
-- `validate_command_name`, which mirrors `CommandStore::validate_name` of the firmware.
use esphome_rf_cloner.Base.{
  ℕ, ◌≤◌, ◌≡◌, refl, ◌↔◌, ◌⊎◌, String, Bool, true, false, ◌||◌, Option, none, some, List, [], ◌∷◌,
  ltb, nat_beq, if◌then◌else◌, arith, all, any, All,
}
use esphome_rf_cloner.Python.Text.{codes, text_length, is_empty, is_ascii_alnum}
use esphome_rf_cloner.Const.{name_max_length, name_allowed_extra}

-- `char.isascii() and (char.isalnum() or char in NAME_ALLOWED_EXTRA)`. The extra characters are
-- ASCII themselves.
unfoldable pub is_name_char : ℕ → Bool
unfolding is_ascii_alnum
is_name_char c = is_ascii_alnum c || any (nat_beq c) (codes name_allowed_extra)

-- `validate_command_name`: a translation key when the name is not one the device would store.
unfoldable pub validate_command_name : String → Option String
validate_command_name name =
    if is_empty name
    then some "name_empty"
    else if ltb name_max_length (text_length name)
    then some "name_too_long"
    else if all is_name_char (codes name)
    then none
    else some "name_invalid"

-- The alphabet of command names: letters, digits, `_`, `-` and `.`.
abbrev pub NameChar : ℕ → Type 0
NameChar c =
    ((b'0' ≤ c) × (c ≤ b'9'))
    ⊎ ((b'A' ≤ c) × (c ≤ b'Z'))
    ⊎ ((b'a' ≤ c) × (c ≤ b'z'))
    ⊎ (c ≡ b'_')
    ⊎ (c ≡ b'-')
    ⊎ (c ≡ b'.')

-- A name that the device stores: one to 23 characters of that alphabet.
pub record IsStorable (name : String) : Type 0 where
  pub nonempty : 1 ≤ text_length name
  pub short : text_length name ≤ 23
  pub plain : All NameChar (codes name)

is_name_char_iff : (c : ℕ) → (is_name_char c ≡ true) ↔ NameChar c
unfolding is_name_char
is_name_char_iff c = ground arith

all-is_name_char : (cs : List ℕ) → (all is_name_char cs ≡ true) ↔ All NameChar cs
all-is_name_char [] = (λ _. tt, λ _. refl)
all-is_name_char (c ∷ cs) = ground (arith, is_name_char_iff c, all-is_name_char cs)

is_empty-length : (name : String) → (is_empty name ≡ false) ↔ (1 ≤ text_length name)
is_empty-length String.[] = ground arith
is_empty-length (String.◌∷◌ c s) = ground arith

-- A name is accepted, with no translation key, exactly when it has one to 23 characters and each is
-- an ASCII letter or digit, `_`, `-` or `.`.
pub validate_command_name-IsStorable :
    (name : String) → (validate_command_name name ≡ none) ↔ IsStorable name
unfolding validate_command_name
validate_command_name-IsStorable name =
    ground (arith, is_empty-length name, all-is_name_char (codes name))
