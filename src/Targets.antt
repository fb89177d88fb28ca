-- ===== src/Targets.antt =====
-- custom_components/rf_cloner/targets.py: the RF targets of an entry, and the organisation of its
-- commands. `new_target_id` only asks the `uuid` library for a value and has no counterpart here.
pub mod Stored
pub mod Options
pub mod Prune
mod Tests
use esphome_rf_cloner.Base.{
  ℤ, String, Bool, true, false, not, ◌&&◌, Option, none, some, List, [], ◌∷◌, if◌then◌else◌, ltb_ℤ,
  ◌==◌, contains, int_eq, string_eq, option_string_eq,
}
use Prim.Native.String.{◌++◌}
use esphome_rf_cloner.Base.Dict.{Dict, lookup, insert, erase, has_key}
use esphome_rf_cloner.Python.Text.{is_empty}
use esphome_rf_cloner.Python.Decimal.{parse_int, show_int}
use esphome_rf_cloner.Python.Value.{Value, null, str, dict, to_dict, of_dict}
use esphome_rf_cloner.Const.{
  opt_commands, subentry_type_target, target_type_generic, target_types, target_type_models,
  default_command_icon,
}
use esphome_rf_cloner.Entry.{ConfigSubentry, ConfigEntry}

-- `target_device_identifier`
unfoldable pub target_device_identifier : String → String → String
target_device_identifier bridge_id target_id = bridge_id ++ "_target_" ++ target_id

-- `x if isinstance(x, str) and x else None`, of what a `get` gave.
unfoldable pub nonempty_text : Option Value → Option String
nonempty_text (some (str s)) = if is_empty s then none else some s
nonempty_text _ = none

-- `validate_target_type`, of what a `get` gave.
unfoldable pub validate_target_type : Option Value → String
validate_target_type (some (str s)) = if contains target_types s then s else target_type_generic
validate_target_type _ = target_type_generic

abbrev or_else : String → Option String → String
or_else default none = default
or_else default (some s) = s

-- `target_model`
unfoldable pub target_model : String → String
unfolding lookup
target_model target_type = or_else "RF target" (lookup target_type target_type_models)

pub record RfTarget : Type 0 where
  pub target_id : String
  pub subentry_id : String
  pub name : String
  pub target_type : String
  pub area_id : Option String

abbrev target_of : ConfigSubentry → Option String → Option RfTarget
target_of subentry none = none
target_of subentry (some target_id) = some (record {
  target_id = target_id;
  subentry_id = subentry.subentry_id;
  name = subentry.title;
  target_type = validate_target_type (lookup "target_type" subentry.content);
  area_id = nonempty_text (lookup "area_id" subentry.content);
})

-- `RfTarget.from_subentry`
unfoldable pub from_subentry : ConfigSubentry → Option RfTarget
unfolding nonempty_text validate_target_type
from_subentry subentry =
    if subentry.subentry_type == subentry_type_target
    then target_of subentry (nonempty_text (lookup "target_id" subentry.content))
    else none

abbrev add_target : Option RfTarget → Dict String RfTarget → Dict String RfTarget
add_target none found = found
add_target (some target) found = insert target.target_id target found

unfoldable pub targets_from : List ConfigSubentry → Dict String RfTarget → Dict String RfTarget
targets_from [] found = found
targets_from (subentry ∷ rest) found = targets_from rest (add_target (from_subentry subentry) found)

-- `targets`
unfoldable pub targets : ConfigEntry → Dict String RfTarget
unfolding targets_from
targets entry = targets_from entry.subentries []

pub record CommandMeta : Type 0 where
  pub target_id : Option String
  pub icon : Option String

-- `CommandMeta()`
abbrev pub empty_meta : CommandMeta
empty_meta = record { target_id = none; icon = none }

abbrev is_none : Option String → Bool
is_none none = true
is_none (some s) = false

-- `CommandMeta.is_empty`
abbrev pub is_empty_meta : CommandMeta → Bool
is_empty_meta meta = is_none meta.target_id && is_none meta.icon

-- `CommandMeta.from_stored`
unfoldable pub from_stored : Value → CommandMeta
unfolding nonempty_text lookup
from_stored (dict fs) = record {
  target_id = nonempty_text (lookup "target_id" (to_dict fs));
  icon = nonempty_text (lookup "icon" (to_dict fs));
}
from_stored _ = empty_meta

abbrev stored_field : String → Option String → Dict String Value → Dict String Value
stored_field key none d = d
stored_field key (some s) d = (key, str s) ∷ d

-- `CommandMeta.as_stored`
unfoldable pub as_stored : CommandMeta → Dict String Value
as_stored meta = stored_field "target_id" meta.target_id (stored_field "icon" meta.icon [])

-- One round of the loop of `command_meta`: a key that is no integer is skipped.
abbrev pub add_meta : Option ℤ → CommandMeta → Dict ℤ CommandMeta → Dict ℤ CommandMeta
add_meta none meta found = found
add_meta (some command_id) meta found =
    if is_empty_meta meta then found else insert command_id meta found

unfoldable pub meta_from : Dict String Value → Dict ℤ CommandMeta → Dict ℤ CommandMeta
meta_from [] found = found
meta_from ((key, value) ∷ stored) found =
    meta_from stored (add_meta (parse_int key) (from_stored value) found)

abbrev pub meta_of : Option Value → Dict ℤ CommandMeta
meta_of (some (dict fs)) = meta_from (to_dict fs) []
meta_of _ = []

-- `command_meta`
unfoldable pub command_meta : ConfigEntry → Dict ℤ CommandMeta
command_meta entry = meta_of (lookup opt_commands entry.options)

abbrev meta_or_empty : Option CommandMeta → CommandMeta
meta_or_empty none = empty_meta
meta_or_empty (some meta) = meta

-- `meta_for`
unfoldable pub meta_for : ConfigEntry → ℤ → CommandMeta
meta_for entry command_id = meta_or_empty (lookup command_id (command_meta entry))

abbrev target_named : Dict String RfTarget → Option String → Option RfTarget
target_named found none = none
target_named found (some target_id) = lookup target_id found

-- `assigned_target`
unfoldable pub assigned_target : ConfigEntry → ℤ → Option RfTarget
assigned_target entry command_id =
    target_named (targets entry) (meta_for entry command_id).target_id

unfoldable pub assigned_to : String → Dict ℤ CommandMeta → List ℤ
assigned_to target_id [] = []
assigned_to target_id ((command_id, meta) ∷ d) =
    let rest = assigned_to target_id d in
    if meta.target_id == some target_id then command_id ∷ rest else rest

-- `commands_for_target`, its set as a list.
unfoldable pub commands_for_target : ConfigEntry → String → List ℤ
unfolding assigned_to
commands_for_target entry target_id = assigned_to target_id (command_meta entry)

-- `icon or DEFAULT_COMMAND_ICON`
abbrev icon_or : Option String → String
icon_or none = default_command_icon
icon_or (some icon) = if is_empty icon then default_command_icon else icon

-- `command_icon`
unfoldable pub command_icon : ConfigEntry → ℤ → String
unfolding meta_for
command_icon entry command_id = icon_or (meta_for entry command_id).icon

-- `merged` after the loop over `updates`.
unfoldable pub merge : Dict ℤ CommandMeta → Dict ℤ CommandMeta → Dict ℤ CommandMeta
merge [] merged = merged
merge ((command_id, meta) ∷ updates) merged =
    merge updates
      (if is_empty_meta meta then erase command_id merged else insert command_id meta merged)

-- `sorted(d.items())`; the keys differ, so the values are never compared.
unfoldable pub place : ℤ → CommandMeta → Dict ℤ CommandMeta → Dict ℤ CommandMeta
place k v [] = (k, v) ∷ []
place k v ((j, w) ∷ d) =
    let rest = place k v d in if ltb_ℤ j k then (j, w) ∷ rest else (k, v) ∷ (j, w) ∷ d

unfoldable pub sorted : Dict ℤ CommandMeta → Dict ℤ CommandMeta
sorted [] = []
sorted ((k, v) ∷ d) = place k v (sorted d)

-- `{str(command_id): meta.as_stored() for …}`
unfoldable pub render_onto : Dict ℤ CommandMeta → Dict String Value → Dict String Value
render_onto [] d = d
render_onto ((command_id, meta) ∷ rest) d =
    render_onto rest (insert (show_int command_id) (dict (of_dict (as_stored meta))) d)

-- `options_with`
unfoldable pub options_with : ConfigEntry → Dict ℤ CommandMeta → Dict String Value
options_with entry updates =
    insert opt_commands
      (dict (of_dict (render_onto (sorted (merge updates (command_meta entry))) []))) entry.options

abbrev below : Option ℤ → ℤ → Bool
below none command_id = true
below (some limit) command_id = ltb_ℤ command_id limit

-- A command that the listing, if there is one, shows to be gone.
unfoldable pub is_stale : Option (List ℤ) → Option ℤ → ℤ → Bool
is_stale none listed_below command_id = false
is_stale (some ids) listed_below command_id =
    not (contains ids command_id) && below listed_below command_id

-- An assignment to a target that no longer exists.
unfoldable pub is_dangling : Dict String RfTarget → CommandMeta → Bool
is_dangling known meta = elim meta.target_id [
  | none ↦ false
  | some target_id ↦ not (has_key target_id known)
]

-- The `updates` that the loop of `options_pruned_to` collects.
unfoldable pub prune_updates :
    Option (List ℤ)
    → Option ℤ
    → Dict String RfTarget
    → Dict ℤ CommandMeta
    → Dict ℤ CommandMeta
    → Dict ℤ CommandMeta
prune_updates ids listed_below known [] updates = updates
prune_updates ids listed_below known ((command_id, meta) ∷ rest) updates =
    prune_updates ids listed_below known rest (
      if is_stale ids listed_below command_id
      then insert command_id empty_meta updates
      else if is_dangling known meta
      then insert command_id (record { target_id = none; icon = meta.icon }) updates
      else updates)

-- `None` when there is nothing to update.
abbrev pub unless_empty : ConfigEntry → Dict ℤ CommandMeta → Option (Dict String Value)
unless_empty entry [] = none
unless_empty entry (update ∷ updates) = some (options_with entry (update ∷ updates))

-- `options_pruned_to`
unfoldable pub options_pruned_to :
    ConfigEntry → Option (List ℤ) → Option ℤ → Option (Dict String Value)
options_pruned_to entry command_ids listed_below =
    unless_empty entry
      (prune_updates command_ids listed_below (targets entry) (command_meta entry) [])
