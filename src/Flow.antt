-- ===== src/Flow.antt =====
-- custom_components/rf_cloner/config_flow.py: what the flows show, the pickers, and the probe of a
-- node. Its child modules model the flows. What a user submits is a mapping that the form's schema
-- has let through; a picker lets through texts alone.
pub mod Learn
pub mod Arming
pub mod Placed
pub mod Delete
pub mod Command
pub mod Edited
pub mod Bridge
pub mod Rebound
pub mod Target
pub mod Named
mod Tests
use Prim.Native.Char.{code}
use Prim.Native.String
use Prim.Native.String.{◌++◌}
use esphome_rf_cloner.Base.{
  String, Bool, true, false, Option, none, some, List, [], ◌∷◌, map, ltb, nat_beq, if◌then◌else◌,
  ◌==◌, string_eq,
}
use esphome_rf_cloner.Base.Dict.{Dict, values}
use esphome_rf_cloner.Python.Result.{Result, ok, err, Exception}
use esphome_rf_cloner.Python.Exec.{Exec, pure, catching, ◌>>=◌, ◌>>◌}
use esphome_rf_cloner.Python.Decimal.{show_int}
use esphome_rf_cloner.Python.Text.{is_empty, strip}
use esphome_rf_cloner.Python.Value.{Value, null, str, at, get, as_str}
use esphome_rf_cloner.Const.{target_types}
use esphome_rf_cloner.Entry.{ConfigEntry}
use esphome_rf_cloner.Host.{Host}
use esphome_rf_cloner.Models.CommandInfo.{CommandInfo}
use esphome_rf_cloner.Models.BridgeStatus.{BridgeStatus}
use esphome_rf_cloner.Targets.{RfTarget, targets, assigned_target}
use esphome_rf_cloner.Transport.{BridgeTransport, supports, async_status}

pub data Selector : Type 0 where
  text_selector icon_selector area_selector boolean : Selector
  -- A drop-down list of values with their labels, or of values that the frontend translates.
  select : Dict String String → Selector
  translated : String → List String → Selector

-- A key of a form's schema. A default of `none` is `vol.UNDEFINED`.
pub record Field : Type 0 where
  pub key : String
  pub required : Bool
  pub default : Option Value
  pub selector : Selector

-- What a step of a flow returns.
pub data FlowResult : Type 0 where
  -- A step, its schema, the errors and the placeholders.
  show_form : String → List Field → Dict String String → Dict String String → FlowResult
  show_menu : String → List String → FlowResult
  show_progress : String → String → Dict String String → FlowResult
  show_progress_done : String → FlowResult
  -- A reason and the placeholders.
  aborts : String → Dict String String → FlowResult
  -- A title, the data and the unique id that it is given.
  creates_entry : String → Dict String Value → Option String → FlowResult

-- What the flows use of Python beside the host: `str.lower`, `str.casefold` and `str` of an
-- exception.
pub record Strings : Type 0 where
  pub lower : String → String
  pub casefold : String → String
  pub describe : Exception → String

abbrev pub unassigned : String
unassigned = "__unassigned__"

-- `a < b` for texts: by code points.
abbrev pub text_before : String → String → Bool
text_before s String.[] = false
text_before String.[] (String.◌∷◌ d t) = true
text_before (String.◌∷◌ c s) (String.◌∷◌ d t) =
    if nat_beq (code c) (code d) then text_before s t else ltb (code c) (code d)

-- `sorted(xs, key=key)`, which keeps the order of equals.
unfoldable pub place_by {ℓ} : {A : Type ℓ} → (A → String) → A → List A → List A
place_by key x [] = x ∷ []
place_by key x (y ∷ ys) =
    let rest = place_by key x ys in if text_before (key y) (key x) then y ∷ rest else x ∷ y ∷ ys

unfoldable pub sorted_by {ℓ} : {A : Type ℓ} → (A → String) → List A → List A
unfolding place_by
sorted_by key [] = []
sorted_by key (x ∷ xs) = place_by key x (sorted_by key xs)

-- `_esphome_entries`, of what `async_entries` gave
unfoldable pub esphome_entries : Strings → List ConfigEntry → List ConfigEntry
unfolding sorted_by
esphome_entries S found = sorted_by (λ (entry : ConfigEntry). S.lower entry.title) found

-- `_esphome_entry_selector`
unfoldable pub esphome_entry_selector : Strings → List ConfigEntry → Selector
unfolding esphome_entries
esphome_entry_selector S found =
    select (map (λ (entry : ConfigEntry). (entry.entry_id, entry.title)) (esphome_entries S found))

-- `_target_type_selector`
abbrev pub target_type_selector : Selector
target_type_selector = translated "target_type" target_types

-- `_target_selector`
unfoldable pub target_selector : Strings → ConfigEntry → Selector
unfolding sorted_by
target_selector S entry = select (
    (unassigned, "Unassigned")
    ∷ map (λ (target : RfTarget). (target.target_id, target.name))
        (sorted_by (λ (target : RfTarget). S.lower target.name) (values (targets entry))))

abbrev pub where_is : Option RfTarget → String
where_is none = "Unassigned"
where_is (some target) = target.name

-- `_command_selector`
unfoldable pub command_selector : Strings → ConfigEntry → BridgeStatus → Selector
unfolding sorted_by assigned_target
command_selector S entry status = select (
    map
      (λ (command : CommandInfo). (
        show_int command.command_id,
        command.name ++ " (" ++ where_is (assigned_target entry command.command_id) ++ ")",
      ))
      (sorted_by (λ (command : CommandInfo). S.lower command.name) status.commands))

-- `errors["base"] = error or "unknown"`
abbrev pub error_or : String → Option String → String
error_or default none = default
error_or default (some error) = if is_empty error then default else error

-- `None if chosen == UNASSIGNED else chosen`, of `user_input.get(CONF_TARGET_ID, UNASSIGNED)`
abbrev pub chosen_target : Option Value → Option String
chosen_target (some (str s)) = if s == unassigned then none else some s
chosen_target _ = none

-- `s or None`
abbrev pub or_none : String → Option String
or_none s = if is_empty s then none else some s

module _ (H : Host) where
  -- `str(user_input[key]).strip()`
  abbrev pub stripped : Dict String Value → String → Result String
  stripped fields key = elim (at fields key) as (λ _. Result String) [
    | err e ↦ err e
    | ok v ↦ ok (strip (as_str H.repr v))
  ]

  -- `str(user_input.get(key, "")).strip()`
  abbrev pub stripped_or_empty : Dict String Value → String → String
  stripped_or_empty fields key = strip (as_str H.repr (get fields key (str "")))

  abbrev read_node : BridgeTransport → Exec H.State (Option BridgeStatus × Option String)
  read_node t =
      catching (async_status H t >>= λ status. pure (some status, none))
        (λ e. pure (none, some "cannot_connect"))

  abbrev probe_node : Bool → BridgeTransport → Exec H.State (Option BridgeStatus × Option String)
  probe_node false t s = (ok (none, some "no_bridge_actions"), s)
  probe_node true t s = read_node t s

  abbrev probe_entry :
      Option ConfigEntry → BridgeTransport → Exec H.State (Option BridgeStatus × Option String)
  probe_entry none t s = (ok (none, some "esphome_entry_missing"), s)
  probe_entry (some entry) t s = probe_node (supports H t "status" s) t s

  -- `_async_probe`
  unfoldable pub async_probe : String → String → Exec H.State (Option BridgeStatus × Option String)
  async_probe esphome_entry_id action_prefix s =
      probe_entry (H.get_entry s esphome_entry_id)
        (record { esphome_entry_id = esphome_entry_id; action_prefix = action_prefix }) s

  abbrev title_of : Option ConfigEntry → String
  title_of none = "RF Bridge"
  title_of (some entry) = entry.title

  -- `_suggested_title`
  unfoldable pub suggested_title : String → H.State → String
  suggested_title esphome_entry_id s = title_of (H.get_entry s esphome_entry_id)
