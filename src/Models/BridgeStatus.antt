-- ===== src/Models/BridgeStatus.antt =====
-- `BridgeStatus`: the canonical registry read, as `rf_status` returns it.
use esphome_rf_cloner.Base.{
  ℤ, pos, String, Bool, false, not, ◌&&◌, List, [], ◌∷◌, ltb_ℤ, leb_ℤ, Eq, int_eq, string_eq,
}
use esphome_rf_cloner.Base.Dict.{Dict, insert}
use esphome_rf_cloner.Python.Result.{Result, ok, ◌>>=◌, collect}
use esphome_rf_cloner.Python.Value.{
  Value, bool, int, str, list, nil, as_int, as_str, truth, at, get, iterate, subscriptable,
}
use esphome_rf_cloner.Models.CommandInfo
use esphome_rf_cloner.Models.CommandInfo.{CommandInfo}

pub record BridgeStatus : Type 0 where
  pub bridge_id : String
  pub revision : ℤ
  pub next_command_id : ℤ
  pub restore_incomplete : Bool
  pub read_only : Bool
  pub fault : String
  pub state : String
  pub last_result : String
  pub count : ℤ
  pub max_commands : ℤ
  pub max_pulses : ℤ
  pub used_bytes : ℤ
  pub capacity_bytes : ℤ
  pub commands : List CommandInfo

-- `BridgeStatus.from_payload`, its fields read in the order of the source.
unfoldable pub from_payload : (Value → String) → Value → Result BridgeStatus
unfolding subscriptable at get as_int as_str truth collect iterate CommandInfo.from_payload
from_payload repr v = do
  payload ← subscriptable v
  bridge_id ← at payload "bridge_id"
  revision_value ← at payload "revision"
  revision ← as_int revision_value
  next_value ← at payload "next_command_id"
  next_command_id ← as_int next_value
  count ← as_int (get payload "count" (int (pos 0)))
  max_commands ← as_int (get payload "max_commands" (int (pos 0)))
  max_pulses ← as_int (get payload "max_pulses" (int (pos 0)))
  used_bytes ← as_int (get payload "used_bytes" (int (pos 0)))
  capacity_bytes ← as_int (get payload "capacity_bytes" (int (pos 0)))
  rows ← iterate (get payload "commands" (list nil))
  commands ← collect (CommandInfo.from_payload repr) rows
  ok (record {
    bridge_id = as_str repr bridge_id;
    revision = revision;
    next_command_id = next_command_id;
    restore_incomplete = truth (get payload "restore_incomplete" (bool false));
    read_only = truth (get payload "read_only" (bool false));
    fault = as_str repr (get payload "fault" (str "none"));
    state = as_str repr (get payload "state" (str "unknown"));
    last_result = as_str repr (get payload "last_result" (str ""));
    count = count;
    max_commands = max_commands;
    max_pulses = max_pulses;
    used_bytes = used_bytes;
    capacity_bytes = capacity_bytes;
    commands = commands;
  })

-- `{key(c): c for c in commands}`: a later row replaces an earlier one under its key.
unfoldable pub index_from {ℓ} :
    {K : Type ℓ} ⦃e : Eq K⦄
    → (CommandInfo → K)
    → List CommandInfo
    → Dict K CommandInfo
    → Dict K CommandInfo
index_from key [] d = d
index_from key (c ∷ cs) d = index_from key cs (insert (key c) c d)

-- `BridgeStatus.by_id`
unfoldable pub by_id : BridgeStatus → Dict ℤ CommandInfo
unfolding index_from insert
by_id status = index_from (λ c. c.command_id) status.commands []

-- `BridgeStatus.by_name`
unfoldable pub by_name : BridgeStatus → Dict String CommandInfo
unfolding index_from insert
by_name status = index_from (λ c. c.name) status.commands []

-- `BridgeStatus.is_full`
unfoldable pub is_full : BridgeStatus → Bool
is_full status = ltb_ℤ (pos 0) status.max_commands && leb_ℤ status.max_commands status.count

-- `BridgeStatus.accepts_mutations`
unfoldable pub accepts_mutations : BridgeStatus → Bool
accepts_mutations status = not status.read_only && not status.restore_incomplete
