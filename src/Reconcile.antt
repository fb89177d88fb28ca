-- ===== src/Reconcile.antt =====
-- custom_components/rf_cloner/reconcile.py: the mirror of the device's command list. Logging is not
-- modelled; a set is a list that only membership is asked of.
pub mod UniqueId
pub mod Claims
pub mod Purge
pub mod Settled
pub mod Kept
mod Tests
use Prim.Native.Char.{code}
use Prim.Native.String
use esphome_rf_cloner.Base.{
  ℕ, ◌+◌, ℤ, String, Bool, true, false, not, ◌&&◌, ◌||◌, Option, none, some, List, [], ◌∷◌, ◌++◌,
  map, nat_beq, ltb, if◌then◌else◌, ◌==◌, contains, string_eq, int_eq,
}
use esphome_rf_cloner.Base.Dict.{Dict, lookup, insert, erase, values}
use esphome_rf_cloner.Python.Decimal.{show_int, parse_int}
use esphome_rf_cloner.Python.Value.{Value}
use esphome_rf_cloner.Entry.{ConfigEntry, with_options}
use esphome_rf_cloner.Registry.{RegistryEntry, EntityRegistry}
use esphome_rf_cloner.Models.CommandInfo.{CommandInfo}
use esphome_rf_cloner.Models.BridgeStatus.{BridgeStatus}
use esphome_rf_cloner.Targets.{RfTarget, targets, options_pruned_to}

-- In milliseconds.
abbrev pub reservation_time : ℕ
reservation_time = 60000

-- What follows `prefix` in a text, if the text starts with it.
unfoldable pub after_prefix : String → String → Option String
after_prefix String.[] s = some s
after_prefix (String.◌∷◌ c p) String.[] = none
after_prefix (String.◌∷◌ c p) (String.◌∷◌ d s) =
    let rest = after_prefix p s in if nat_beq (code c) (code d) then rest else none

abbrev pub prefix : String → String
prefix bridge_id = String.◌++◌ bridge_id "_"

abbrev pub read_id : Option String → Option ℤ
read_id none = none
read_id (some suffix) = parse_int suffix

-- `command_id_from_unique_id`
unfoldable pub command_id_from_unique_id : String → String → Option ℤ
unfolding after_prefix
command_id_from_unique_id bridge_id unique_id = read_id (after_prefix (prefix bridge_id) unique_id)

-- `command_unique_id`
unfoldable pub command_unique_id : String → ℤ → String
command_unique_id bridge_id command_id = String.◌++◌ (prefix bridge_id) (show_int command_id)

-- Whether a claim holds, and the claims that are left: one that has lapsed is dropped.
abbrev pub claim_of : ℕ → String → Dict String ℕ → Option ℕ → Bool × Dict String ℕ
claim_of now name reserved none = (false, reserved)
claim_of now name reserved (some lapses_at) = elim (ltb now lapses_at) [
  | true ↦ (true, reserved)
  | false ↦ (false, erase name reserved)
]

-- `_async_is_reserved` at the time `now`
unfoldable pub async_is_reserved : ℕ → String → Dict String ℕ → Bool × Dict String ℕ
unfolding erase
async_is_reserved now name reserved = claim_of now name reserved (lookup name reserved)

-- The comprehension of `async_visible_commands`.
unfoldable pub visible_from : ℕ → List CommandInfo → Dict String ℕ → List ℤ × Dict String ℕ
visible_from now [] reserved = ([], reserved)
visible_from now (c ∷ cs) reserved =
    let (claimed, left) = async_is_reserved now c.name reserved in
    let (ids, last) = visible_from now cs left in
    (if claimed then ids else c.command_id ∷ ids, last)

-- The loop that spends the claims on the names that have materialised.
unfoldable pub spend : List CommandInfo → Dict String ℕ → Dict String ℕ
unfolding erase
spend [] reserved = reserved
spend (c ∷ cs) reserved = spend cs (erase c.name reserved)

abbrev foreign : Option String → String → Bool
foreign none bridge_id = false
foreign (some expected) bridge_id = not (bridge_id == expected)

-- A record that the purge drops: it names a command, and one that is not listed.
unfoldable pub is_gone : String → List ℤ → RegistryEntry → Bool
unfolding command_id_from_unique_id
is_gone bridge_id listed r = elim (command_id_from_unique_id bridge_id r.unique_id) [
  | none ↦ false
  | some command_id ↦ not (contains listed command_id)
]

abbrev pub known_of : ConfigEntry → List String
known_of entry = map (λ (target : RfTarget). target.subentry_id) (values (targets entry))

-- `list.remove`, if it is there
unfoldable pub remove_first : ℕ → List ℕ → List ℕ
remove_first a [] = []
remove_first a (x ∷ xs) = if nat_beq a x then xs else x ∷ remove_first a xs

module _ (R : EntityRegistry) where
  -- `CommandReconciler`, with the entry and the registry that it works on. A listener is a number,
  -- and `heard` gives the listeners in the order in which they were called; what a listener then
  -- does is not modelled.
  pub record CommandReconciler : Type 0 where
    pub entry : ConfigEntry
    pub registry : R.State
    pub reserved : Dict String ℕ
    pub active : Bool
    pub identity_mismatch : Bool
    pub listeners : List ℕ
    pub heard : List ℕ
    pub known_targets : List String

  -- `CommandReconciler.__init__`
  unfoldable pub new_reconciler : ConfigEntry → R.State → CommandReconciler
  new_reconciler entry registry = record {
    entry = entry;
    registry = registry;
    reserved = [];
    active = false;
    identity_mismatch = false;
    listeners = [];
    heard = [];
    known_targets = [];
  }

  -- `async_add_listener`, for a listener that is new to it
  unfoldable pub async_add_listener : ℕ → CommandReconciler → CommandReconciler
  async_add_listener listener m = record m { listeners = m.listeners ++ listener ∷ [] }

  -- The `_remove` that `async_add_listener` returns.
  unfoldable pub remove_listener : ℕ → CommandReconciler → CommandReconciler
  unfolding remove_first
  remove_listener listener m = record m { listeners = remove_first listener m.listeners }

  -- `_async_notify`
  unfoldable pub async_notify : CommandReconciler → CommandReconciler
  async_notify m = record m { heard = m.heard ++ m.listeners }

  -- `async_snapshot_targets`
  unfoldable pub async_snapshot_targets : CommandReconciler → CommandReconciler
  async_snapshot_targets m = record m { known_targets = known_of m.entry }

  -- `async_activate`
  unfoldable pub async_activate : CommandReconciler → CommandReconciler
  unfolding async_snapshot_targets
  async_activate m = record (async_snapshot_targets m) { active = true }

  -- `async_deactivate`
  unfoldable pub async_deactivate : CommandReconciler → CommandReconciler
  async_deactivate m = record m { active = false }

  -- `_accepts_user_removals`
  unfoldable pub accepts_user_removals : CommandReconciler → Bool
  accepts_user_removals m = m.active && m.entry.loaded

  -- `async_reserve` at the time `now`
  unfoldable pub async_reserve : ℕ → String → CommandReconciler → CommandReconciler
  unfolding insert
  async_reserve now name m = record m { reserved = insert name (now + reservation_time) m.reserved }

  -- `async_release`
  unfoldable pub async_release : String → CommandReconciler → CommandReconciler
  unfolding erase
  async_release name m = record m { reserved = erase name m.reserved }

  abbrev pub unusable : CommandReconciler → BridgeStatus → Bool
  unusable m status = m.identity_mismatch || status.restore_incomplete

  -- `async_listed_commands`, of the status that it is given or that the coordinator holds
  unfoldable pub async_listed_commands : Option BridgeStatus → CommandReconciler → Option (List ℤ)
  async_listed_commands none m = none
  async_listed_commands (some status) m =
      if unusable m status
      then none
      else some (map (λ (c : CommandInfo). c.command_id) status.commands)

  -- `async_visible_commands` at the time `now`
  unfoldable pub async_visible_commands :
      ℕ → Option BridgeStatus → CommandReconciler → List ℤ × CommandReconciler
  unfolding visible_from
  async_visible_commands now none m = ([], m)
  async_visible_commands now (some status) m =
      let (ids, left) = visible_from now status.commands m.reserved in
      if unusable m status then ([], m) else (ids, record m { reserved = left })

  -- The loop of `_async_purge_removed_commands`.
  unfoldable pub purge_each : String → List ℤ → List RegistryEntry → R.State → R.State
  unfolding is_gone
  purge_each bridge_id listed [] s = s
  purge_each bridge_id listed (r ∷ rs) s =
      purge_each bridge_id listed rs
        (if is_gone bridge_id listed r then R.remove r.entity_id s else s)

  abbrev pub purged : Option (List ℤ) → Option String → String → R.State → R.State
  purged none bridge_id entry_id s = s
  purged (some listed) none entry_id s = s
  purged (some listed) (some bridge_id) entry_id s =
      purge_each bridge_id listed (R.entries s entry_id) s

  -- `_async_purge_removed_commands`
  unfoldable pub async_purge_removed_commands :
      Option (List ℤ) → CommandReconciler → CommandReconciler
  unfolding purge_each
  async_purge_removed_commands listed m = record m {
    registry = purged listed m.entry.unique_id m.entry.entry_id m.registry;
  }

  -- `async_update_entry`, where there is something to write
  abbrev pub update_entry : Option (Dict String Value) → CommandReconciler → CommandReconciler
  update_entry none m = m
  update_entry (some options) m = record m { entry = with_options m.entry options }

  -- `async_reconcile` with a complete status of the adopted identity.
  unfoldable pub follow : BridgeStatus → CommandReconciler → CommandReconciler
  unfolding spend async_listed_commands async_purge_removed_commands async_snapshot_targets
      async_notify
  follow status m =
      let spent = record m { reserved = spend status.commands m.reserved } in
      let listed = async_listed_commands (some status) spent in
      let kept = async_purge_removed_commands listed spent in
      let settled = update_entry (options_pruned_to kept.entry listed none) kept in
      async_notify (async_snapshot_targets settled)

  -- `async_reconcile`
  unfoldable pub async_reconcile : BridgeStatus → CommandReconciler → CommandReconciler
  unfolding follow
  async_reconcile status m =
      if foreign m.entry.unique_id status.bridge_id
      then record m { identity_mismatch = true }
      else if status.restore_incomplete
      then record m { identity_mismatch = false }
      else follow status (record m { identity_mismatch = false })

  abbrev pub next_of : Option BridgeStatus → Option ℤ
  next_of none = none
  next_of (some status) = some status.next_command_id

  abbrev pub handled : Option (Dict String Value) → CommandReconciler → CommandReconciler
  handled none m = async_notify m
  handled (some options) m = record m { entry = with_options m.entry options }

  -- `async_handle_entry_update`, with what the coordinator last held
  unfoldable pub async_handle_entry_update :
      Option BridgeStatus → CommandReconciler → CommandReconciler
  unfolding accepts_user_removals async_snapshot_targets async_listed_commands async_notify
  async_handle_entry_update status m =
      let seen = async_snapshot_targets m in
      elim (accepts_user_removals m) [
        | false ↦ seen
        | true ↦
            handled
              (options_pruned_to seen.entry (async_listed_commands status seen) (next_of status))
              seen
      ]
