-- ===== src/Button.antt =====
-- custom_components/rf_cloner/button.py and the command entities of entity.py: the platform that
-- keeps one button for each visible command. A pass is `_async_apply`; its lock makes it run alone.
pub mod Placed
pub mod Asked
pub mod Pass
mod Tests
use esphome_rf_cloner.Base.{
  ℤ, String, Bool, true, false, not, ◌&&◌, Option, none, some, List, [], ◌∷◌, ◌++◌, keep,
  if◌then◌else◌, ltb_ℤ, ◌==◌, contains, int_eq, option_string_eq,
}
use esphome_rf_cloner.Base.Dict.{Dict, keys, lookup, insert, erase, has_key}
use esphome_rf_cloner.Entry.{ConfigEntry}
use esphome_rf_cloner.Models.CommandInfo.{CommandInfo}
use esphome_rf_cloner.Models.BridgeStatus.{BridgeStatus, by_id}
use esphome_rf_cloner.Targets.{RfTarget, assigned_target, command_icon, target_device_identifier}
use esphome_rf_cloner.Reconcile.{command_unique_id}
use esphome_rf_cloner.Python.Exec.{Exec}
use esphome_rf_cloner.Host.{Host}
use esphome_rf_cloner.Transport.{BridgeTransport}
use esphome_rf_cloner.Coordinator
use esphome_rf_cloner.Sensors.{RfBridgeEntity, new_entity}

-- `CommandButton`, an `RfCommandEntity`. `device` is the target's identifier in its `DeviceInfo`.
pub record CommandButton : Type 0 where
  pub command_id : ℤ
  pub name : String
  pub target : Option RfTarget
  pub unique_id : String
  pub icon : String
  pub has_entity_name : Bool
  pub device : Option String

-- `RfCommandEntity.__init__`
unfoldable pub new_button : String → ℤ → String → Option RfTarget → String → CommandButton
new_button bridge_id command_id name target icon = record {
  command_id = command_id;
  name = name;
  target = target;
  unique_id = command_unique_id bridge_id command_id;
  icon = icon;
  has_entity_name = elim target [ none ↦ false | some _ ↦ true ];
  device = elim target [
    | none ↦ none
    | some t ↦ some (target_device_identifier bridge_id t.target_id)
  ];
}

-- What a pass asks Home Assistant for: a button's removal, or a new button under a subentry.
pub data Deed : Type 0 where
  removed : ℤ → Deed
  added : ℤ → Option String → Deed

-- The variables that `_async_apply` closes over, and what it has asked for so far.
pub record Platform : Type 0 where
  pub placed : Dict ℤ (Option String)
  pub entities : Dict ℤ CommandButton
  pub deeds : List Deed

-- `None if target is None else target.subentry_id`
unfoldable pub placement : ConfigEntry → ℤ → Option String
placement entry command_id = elim (assigned_target entry command_id) [
  | none ↦ none
  | some target ↦ some target.subentry_id
]

-- `sorted` of a set
unfoldable pub place_id : ℤ → List ℤ → List ℤ
place_id k [] = k ∷ []
place_id k (j ∷ js) =
    let rest = place_id k js in
    if k == j then j ∷ js else if ltb_ℤ j k then j ∷ rest else k ∷ j ∷ js

unfoldable pub sorted : List ℤ → List ℤ
unfolding place_id
sorted [] = []
sorted (k ∷ ks) = place_id k (sorted ks)

abbrev pub placed_as : Option (Option String) → Option String → Bool
placed_as none subentry_id = false
placed_as (some old) subentry_id = old == subentry_id

module _ (bridge_id : String) (entry : ConfigEntry) (status : Option BridgeStatus) where
  -- Placed where it belongs: left strictly alone.
  abbrev pub stays : Dict ℤ (Option String) → ℤ → Bool
  stays placed command_id = placed_as (lookup command_id placed) (placement entry command_id)

  unfoldable pub gone : List ℤ → Dict ℤ (Option String) → List ℤ
  gone wanted placed = keep (λ k. not (contains wanted k)) (keys placed)

  unfoldable pub moved : List ℤ → Dict ℤ (Option String) → List ℤ
  unfolding sorted has_key
  moved wanted placed = keep (λ k. has_key k placed && not (stays placed k)) (sorted wanted)

  unfoldable pub fresh : List ℤ → Dict ℤ (Option String) → List ℤ
  unfolding sorted has_key
  fresh wanted placed = keep (λ k. not (has_key k placed)) (sorted wanted)

  abbrev pub iconed : ℤ → Option CommandButton → Dict ℤ CommandButton → Dict ℤ CommandButton
  iconed k none entities = entities
  iconed k (some button) entities =
      insert k (record button { icon = command_icon entry k }) entities

  -- `async_set_icon` of the buttons that stay
  unfoldable pub set_icons :
      Dict ℤ (Option String) → List ℤ → Dict ℤ CommandButton → Dict ℤ CommandButton
  set_icons placed [] entities = entities
  set_icons placed (k ∷ ks) entities =
      set_icons placed ks
        (if stays placed k then iconed k (lookup k entities) entities else entities)

  abbrev pub removal : ℤ → Option CommandButton → List Deed
  removal k none = []
  removal k (some button) = removed k ∷ []

  -- The loop of removals.
  unfoldable pub remove_each : List ℤ → Platform → Platform
  unfolding erase
  remove_each [] p = p
  remove_each (k ∷ ks) p = remove_each ks (record {
    placed = erase k p.placed;
    entities = erase k p.entities;
    deeds = p.deeds ++ removal k (lookup k p.entities);
  })

  abbrev listed : Option BridgeStatus → ℤ → Option CommandInfo
  listed none k = none
  listed (some status) k = lookup k (by_id status)

  abbrev pub command_of : ℤ → Option CommandInfo
  command_of k = listed status k

  abbrev pub add_button : ℤ → Option CommandInfo → Platform → Platform
  add_button k none p = p
  add_button k (some command) p = record {
    placed = insert k (placement entry k) p.placed;
    entities =
        insert k
          (new_button bridge_id k command.name (assigned_target entry k) (command_icon entry k))
          p.entities;
    deeds = p.deeds ++ added k (placement entry k) ∷ [];
  }

  -- The loop of additions.
  unfoldable pub add_each : List ℤ → Platform → Platform
  add_each [] p = p
  add_each (k ∷ ks) p = add_each ks (add_button k (command_of k) p)

  -- `_async_apply`, for the ids that `async_visible_commands` gave.
  unfoldable pub async_apply : List ℤ → Platform → Platform
  unfolding set_icons gone moved fresh remove_each add_each
  async_apply wanted p =
      let leaves = gone wanted p.placed in
      let moves = moved wanted p.placed in
      let enters = fresh wanted p.placed in
      let kept = record p { entities = set_icons p.placed (sorted wanted) p.entities } in
      add_each (moves ++ enters) (remove_each (leaves ++ moves) kept)

-- `RfCommandEntity.name`: the label and the button that it leaves, which remembers the last one.
unfoldable pub name_of : Option CommandInfo → CommandButton → String × CommandButton
name_of none button = (button.name, button)
name_of (some command) button = (command.name, record button { name = command.name })

-- `RfCommandEntity.available`, where `polled` is what the coordinator's entity answers and
-- `reachable` what the transport does.
unfoldable pub is_available : Bool → Bool → Option CommandInfo → Bool
is_available polled reachable none = false
is_available polled reachable (some command) = polled && reachable

-- `CommandButton.async_press`
unfoldable pub async_press : (H : Host) → BridgeTransport → CommandButton → Exec H.State (Unit {0})
async_press H t button = Coordinator.async_send H t button.command_id

-- `CancelLearnButton.__init__`
abbrev pub cancel_learn_button : String → RfBridgeEntity
cancel_learn_button bridge_id = new_entity bridge_id "cancel_learn"

-- `CancelLearnButton.async_press`
unfoldable pub press_cancel : (H : Host) → BridgeTransport → Exec H.State (Unit {0})
press_cancel H t = Coordinator.async_cancel H t
