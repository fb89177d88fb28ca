-- ===== src/Flow/Learn.antt =====
-- config_flow.py, `LearnCommandSteps` and `LearnCommandFlow`: naming a command, capturing it, and
-- recording where it belongs. The learn runs as a task beside the flow.
use esphome_rf_cloner.Base.{
  ℕ, ℤ, String, Bool, true, false, Option, none, some, [], ◌∷◌, string_eq, if◌then◌else◌,
}
use esphome_rf_cloner.Base.Dict.{Dict, lookup, has_key}
use esphome_rf_cloner.Python.Result.{
  Result, ok, err, Exception, assertion_error, other, is_home_assistant_error,
}
use esphome_rf_cloner.Python.Exec.{Exec}
use esphome_rf_cloner.Python.Text.{is_empty}
use esphome_rf_cloner.Python.Value.{Value, str}
use esphome_rf_cloner.Const.{conf_name, conf_target_id, conf_icon, target_type_generic}
use esphome_rf_cloner.Entry.{ConfigEntry, with_options}
use esphome_rf_cloner.Host.{Host}
use esphome_rf_cloner.Registry.{EntityRegistry}
use esphome_rf_cloner.Devices.{DeviceRegistry}
use esphome_rf_cloner.Models.BridgeStatus.{BridgeStatus, by_name, is_full, accepts_mutations}
use esphome_rf_cloner.Models.Names.{validate_command_name}
use esphome_rf_cloner.Coordinator.{LearnOutcome}
use esphome_rf_cloner.Coordinator
use esphome_rf_cloner.Icons.{suggest_icon}
use esphome_rf_cloner.Targets.{RfTarget, targets, options_with}
use esphome_rf_cloner.Reconcile.{async_reserve, async_release}
use esphome_rf_cloner.Runtime.{RfClonerRuntimeData, World, entry_of, on_reconciler}
use esphome_rf_cloner.Flow.{
  FlowResult, show_form, show_progress, show_progress_done, aborts, Strings, text_selector,
  icon_selector, unassigned, target_selector, where_is, chosen_target, or_none, error_or, stripped,
  stripped_or_empty,
}

-- `asyncio.Task` of a learn.
pub data Task : Type 0 where
  running : Task
  finished : Result LearnOutcome → Task

-- The state of `LearnCommandSteps`.
pub record LearnCommandSteps : Type 0 where
  pub name : String
  pub icon : Option String
  pub target_id : Option String
  pub task : Option Task

-- `LearnCommandSteps.__init__`
abbrev pub new_steps : LearnCommandSteps
new_steps = record { name = ""; icon = none; target_id = none; task = none }

abbrev pub type_of : Option RfTarget → String
type_of none = target_type_generic
type_of (some target) = target.target_type

abbrev pub id_of : Option RfTarget → Option String
id_of none = none
id_of (some target) = some target.target_id

abbrev pub or_empty : Option String → String
or_empty none = ""
or_empty (some s) = s

-- `targets(entry).get(self._target_id or "")`
abbrev pub chosen_of : ConfigEntry → Option String → Option RfTarget
chosen_of entry target_id = lookup (or_empty target_id) (targets entry)

module _ (H : Host) (R : EntityRegistry) (D : DeviceRegistry) (S : Strings) where
  abbrev pub Learning : Type 0
  Learning = LearnCommandSteps × World H R D

  -- `self._icon or suggest_icon(…)`
  abbrev pub icon_for : Option String → String → Option RfTarget → String
  icon_for none name target = suggest_icon S.lower name (type_of target)
  icon_for (some icon) name target =
      if is_empty icon then suggest_icon S.lower name (type_of target) else icon

  abbrev pub learn_form : ConfigEntry → Dict String String → FlowResult
  learn_form entry errors =
      show_form "learn_command"
        (record { key = conf_name; required = true; default = none; selector = text_selector }
          ∷ record {
            key = conf_target_id;
            required = false;
            default = some (str unassigned);
            selector = target_selector S entry;
          }
          ∷ record { key = conf_icon; required = false; default = none; selector = icon_selector }
          ∷ [])
        errors []

  -- The status that `runtime.coordinator.data` is, of a bridge that is loaded.
  abbrev pub data_of : Option (RfClonerRuntimeData H) → Option BridgeStatus
  data_of none = none
  data_of (some runtime) = runtime.status

  abbrev progress : String → FlowResult
  progress name = show_progress "learn" "learning" (("name", name) ∷ [])

  -- `async_step_learn` of a loaded bridge.
  abbrev pub learning : Option Task → Exec Learning FlowResult
  learning none (steps, w) = (
    ok (progress steps.name),
    (
      record steps { task = some running },
      on_reconciler (async_reserve R (H.monotonic w.host) steps.name) w,
    ),
  )
  learning (some running) (steps, w) = (ok (progress steps.name), (steps, w))
  learning (some (finished r)) l = (ok (show_progress_done "learned"), l)

  abbrev pub learn_if : Option (RfClonerRuntimeData H) → Exec Learning FlowResult
  learn_if none l = (ok (aborts "not_loaded" []), l)
  learn_if (some runtime) l = learning l.0.task l

  -- `async_step_learn`
  unfoldable pub async_step_learn : Exec Learning FlowResult
  async_step_learn l = learn_if l.1.runtime l

  abbrev pub named_if : BridgeStatus → Dict String Value → String → Bool → Exec Learning FlowResult
  named_if status fields name true (steps, w) =
      (ok (learn_form (entry_of w) ((conf_name, "name_taken") ∷ [])), (steps, w))
  named_if status fields name false (steps, w) = async_step_learn (
    record steps {
      name = name;
      target_id = chosen_target (lookup conf_target_id fields);
      icon = or_none (stripped_or_empty H fields conf_icon);
    },
    w,
  )

  -- A name that was submitted, with its problem if it has one.
  abbrev pub named :
      BridgeStatus → Dict String Value → String → Option String → Exec Learning FlowResult
  named status fields name (some problem) (steps, w) =
      (ok (learn_form (entry_of w) ((conf_name, problem) ∷ [])), (steps, w))
  named status fields name none l = named_if status fields name (has_key name (by_name status)) l

  abbrev pub submitted : BridgeStatus → Dict String Value → Result String → Exec Learning FlowResult
  submitted status fields (err e) l = (err e, l)
  submitted status fields (ok name) l = named status fields name (validate_command_name name) l

  abbrev pub asked : Option (Dict String Value) → BridgeStatus → Exec Learning FlowResult
  asked none status (steps, w) = (ok (learn_form (entry_of w) []), (steps, w))
  asked (some fields) status l = submitted status fields (stripped H fields conf_name) l

  -- The form, of a bridge that accepts mutations and one that is full.
  abbrev pub opened :
      Bool → Bool → Option (Dict String Value) → BridgeStatus → Exec Learning FlowResult
  opened false full user_input status l = (ok (aborts "not_writable" []), l)
  opened true true user_input status l = (ok (aborts "registry_full" []), l)
  opened true false user_input status l = asked user_input status l

  abbrev pub guarded : Option (Dict String Value) → Option BridgeStatus → Exec Learning FlowResult
  guarded user_input none l = (ok (aborts "not_loaded" []), l)
  guarded user_input (some status) l =
      opened (accepts_mutations status) (is_full status) user_input status l

  -- `async_step_learn_command`
  unfoldable pub async_step_learn_command : Option (Dict String Value) → Exec Learning FlowResult
  async_step_learn_command user_input l = guarded user_input (data_of l.1.runtime) l

  -- `LearnCommandFlow.async_step_user`
  unfoldable pub async_step_user : Exec Learning FlowResult
  async_step_user l = async_step_learn_command none l

  -- The task comes to its end: `coordinator.async_learn`, as far as this much fuel gets it.
  abbrev pub ended : Result (Option LearnOutcome) → Option Task
  ended (ok none) = some running
  ended (ok (some outcome)) = some (finished (ok outcome))
  ended (err e) = some (finished (err e))

  unfoldable pub task_runs : ℕ → RfClonerRuntimeData H → Learning → Learning
  task_runs fuel runtime (steps, w) =
      let (r, s) = Coordinator.async_learn H fuel runtime.transport steps.name w.host in
      (record steps { task = ended r }, record w { host = s })

  abbrev pub release : String → World H R D → World H R D
  release name = on_reconciler (async_release R name)

  abbrev failed : String → Exec Learning FlowResult
  failed detail (steps, w) =
      (ok (aborts "learn_failed" (("detail", detail) ∷ [])), (steps, release steps.name w))

  -- The command in its place.
  abbrev pub stored : ℤ → Option RfTarget → String → World H R D → World H R D
  stored command_id target icon w =
      let entry = entry_of w in
      let meta = (command_id, record { target_id = id_of target; icon = some icon }) ∷ [] in
      on_reconciler (λ m. record m { entry = with_options entry (options_with entry meta) }) w

  abbrev pub learned_as : LearnOutcome → ℤ → Exec Learning FlowResult
  learned_as outcome command_id (steps, w) =
      let target = chosen_of (entry_of w) steps.target_id in
      let icon = icon_for steps.icon outcome.name target in
      (
        ok (aborts "learned" (("name", outcome.name) ∷ ("target", where_is target) ∷ [])),
        (steps, release steps.name (stored command_id target icon w)),
      )

  -- `not outcome.succeeded or outcome.command_id is None`
  abbrev pub judged : LearnOutcome → Bool → Option ℤ → Exec Learning FlowResult
  judged outcome true (some command_id) l = learned_as outcome command_id l
  judged outcome _ _ l = failed (error_or "unknown" (some outcome.detail)) l

  abbrev pub raised : Exception → Bool → Exec Learning FlowResult
  raised e true l = failed (S.describe e) l
  raised e false l = (err e, l)

  abbrev pub result_of : Task → Exec Learning FlowResult
  result_of running l = (err (other "InvalidStateError"), l)
  result_of (finished (err e)) l = raised e (is_home_assistant_error e) l
  result_of (finished (ok outcome)) l = judged outcome outcome.succeeded outcome.command_id l

  abbrev pub learned_if : Option Task → Option (RfClonerRuntimeData H) → Exec Learning FlowResult
  learned_if none runtime l = (err assertion_error, l)
  learned_if (some task) none l = (ok (aborts "not_loaded" []), l)
  learned_if (some task) (some runtime) l = result_of task l

  -- `async_step_learned`
  unfoldable pub async_step_learned : Exec Learning FlowResult
  async_step_learned l = learned_if l.0.task l.1.runtime l
