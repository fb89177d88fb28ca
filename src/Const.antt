-- ===== src/Const.antt =====
-- custom_components/rf_cloner/const.py: the keys, limits and defaults that the other files share.
use esphome_rf_cloner.Base.{ℕ, ◌-◌, ◌^◌, ℤ, pos, String, List, [], ◌∷◌}
use esphome_rf_cloner.Base.Dict.{Dict}

abbrev pub domain : String
domain = "rf_cloner"

abbrev pub esphome_domain : String
esphome_domain = "esphome"

abbrev pub conf_esphome_entry_id : String
conf_esphome_entry_id = "esphome_entry_id"

abbrev pub conf_action_prefix : String
conf_action_prefix = "action_prefix"

abbrev pub conf_command_id : String
conf_command_id = "command_id"

abbrev pub conf_name : String
conf_name = "name"

abbrev pub conf_target_id : String
conf_target_id = "target_id"

abbrev pub conf_target_type : String
conf_target_type = "target_type"

abbrev pub conf_area_id : String
conf_area_id = "area_id"

abbrev pub conf_icon : String
conf_icon = "icon"

abbrev pub device_model : String
device_model = "RF Cloner Bridge"

abbrev pub default_action_prefix : String
default_action_prefix = "rf_"

abbrev pub subentry_type_command : String
subentry_type_command = "command"

abbrev pub subentry_type_target : String
subentry_type_target = "target"

abbrev pub entry_version : ℤ
entry_version = pos 2

abbrev pub entry_minor_version : ℤ
entry_minor_version = pos 1

abbrev pub opt_commands : String
opt_commands = "commands"

-- In milliseconds.
abbrev pub learn_poll_interval : ℕ
learn_poll_interval = 1000

abbrev pub learn_timeout : ℕ
learn_timeout = 30000

abbrev pub revision_terminal : ℕ
revision_terminal = 2 ^ 31 - 1

abbrev pub revision_max : ℕ
revision_max = revision_terminal - 1

abbrev pub name_max_length : ℕ
name_max_length = 23

abbrev pub name_allowed_extra : String
name_allowed_extra = "_-."

abbrev pub target_type_generic : String
target_type_generic = "generic"

abbrev pub target_types : List String
target_types =
    target_type_generic ∷ "fan" ∷ "gate" ∷ "light" ∷ "cover" ∷ "tv" ∷ "air_conditioner" ∷ "other"
    ∷ []

abbrev pub target_type_models : Dict String String
target_type_models =
    (target_type_generic, "RF target")
    ∷ ("fan", "RF fan")
    ∷ ("gate", "RF gate")
    ∷ ("light", "RF light")
    ∷ ("cover", "RF cover")
    ∷ ("tv", "RF TV")
    ∷ ("air_conditioner", "RF air conditioner")
    ∷ ("other", "RF target")
    ∷ []

abbrev pub default_command_icon : String
default_command_icon = "mdi:remote"

abbrev pub action_type_learn_command : String
action_type_learn_command = "learn_command"
