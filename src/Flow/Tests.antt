-- ===== src/Flow/Tests.antt =====
-- Tests of the flows, on a bridge that has learned one command.
use esphome_rf_cloner.Base.{
  ℕ, ◌≤◌, ℤ, pos, String, ◌≡◌, refl, Bool, true, false, Option, none, some, List, [], ◌∷◌, All,
  string_eq, arith,
}
use esphome_rf_cloner.Base.Dict.{Dict, values}
use esphome_rf_cloner.Python.Result.{Result, ok}
use esphome_rf_cloner.Python.Value.{Value, str}
use esphome_rf_cloner.Entry.{ConfigSubentry}
use esphome_rf_cloner.Models.BridgeStatus.{BridgeStatus, is_full, accepts_mutations}
use esphome_rf_cloner.Coordinator.{LearnOutcome}
use esphome_rf_cloner.Targets.{RfTarget, from_subentry, targets, validate_target_type}
use esphome_rf_cloner.Python.Text.{is_empty}
use esphome_rf_cloner.Runtime.{RfClonerRuntimeData, World, entry_of}
use esphome_rf_cloner.Flow.{Strings, stripped, sorted_by, creates_entry}
use esphome_rf_cloner.Flow.Learn.{
  LearnCommandSteps, new_steps, running, finished, data_of, async_step_learn_command,
  async_step_learned, task_runs,
}
use esphome_rf_cloner.Flow.Arming.{Armed, async_step_learn_command-Armed}
use esphome_rf_cloner.Flow.Placed.{Placed, async_step_learned-Placed, Releases, task_runs-Releases}
use esphome_rf_cloner.Flow.Command.{async_step_command}
use esphome_rf_cloner.Flow.Edited.{Edits, async_step_command-Edits}
use esphome_rf_cloner.Flow.Bridge.{snapshot_of, async_step_replace, async_step_reconfigure}
use esphome_rf_cloner.Flow.Rebound.{
  Replaces, async_step_replace-Replaces, Rebinds, async_step_reconfigure-Rebinds,
}
use esphome_rf_cloner.Flow.Target.{target_data, async_step_user}
use esphome_rf_cloner.Flow.Named.{Unlike, async_step_user-creates}
use esphome_rf_cloner.Demo.{
  bridge, status_in, entry, host, host-IsTicking, transport, manager, snapshot, registry,
  reconciler, devices,
}

abbrev strings : Strings
strings = record { lower = λ s. s; casefold = λ s. s; describe = λ e. "error" }

abbrev runtime : BridgeStatus → RfClonerRuntimeData host
runtime status = record {
  bridge_id = bridge;
  bridge_device_id = "device-1";
  transport = transport;
  status = some status;
  snapshots = record manager { snapshot = some snapshot };
  bound_to = ("esphome-1", "rf_");
}

-- The loaded bridge in a phase of its hardware.
abbrev world : ℕ → World host registry devices
world phase = record {
  host = (phase, 0);
  devices = [];
  reconciler = reconciler;
  runtime = some (runtime (status_in phase));
}

sorted_by_title : sorted_by (λ s. s) ("b" ∷ "ab" ∷ "a" ∷ []) ≡ "a" ∷ "ab" ∷ "b" ∷ []
unfolding sorted_by
sorted_by_title = refl

abbrev fan : Option (Dict String Value)
fan = some (("name", str " fan ") ∷ [])

arms :
    (async_step_learn_command host registry devices strings fan (new_steps, world 1)).1.0.task
    ≡ some running
unfolding async_step_learn_command accepts_mutations is_full esphome_rf_cloner.Python.Value.at
    esphome_rf_cloner.Base.Dict.lookup string_eq
    esphome_rf_cloner.Models.Names.validate_command_name esphome_rf_cloner.Python.Text.strip
    esphome_rf_cloner.Python.Value.as_str esphome_rf_cloner.Models.Names.is_name_char
    esphome_rf_cloner.Base.Dict.has_key esphome_rf_cloner.Models.BridgeStatus.by_name
    esphome_rf_cloner.Flow.Learn.async_step_learn
arms = refl

async_step_learn_command-Armed_example :
    (status : BridgeStatus) × (data_of host registry devices strings (world 1).runtime
      ≡ some status)
    × (accepts_mutations status ≡ true)
    × (is_full status ≡ false)
    × Armed host registry devices strings status
        (world 1)
        (async_step_learn_command host registry devices strings fan (new_steps, world 1))
async_step_learn_command-Armed_example =
    async_step_learn_command-Armed host registry devices strings fan new_steps (world 1) refl arms

abbrev outcome : LearnOutcome
outcome = record { succeeded = true; command_id = some (pos 1); name = "power"; detail = "" }

abbrev captured : LearnCommandSteps
captured = record {
  name = "power";
  icon = none;
  target_id = some "t1";
  task = some (finished (ok outcome));
}

async_step_learned-Placed_example :
    Placed host registry devices strings captured outcome
      (pos 1)
      (world 3)
      (async_step_learned host registry devices strings (captured, world 3))
async_step_learned-Placed_example =
    async_step_learned-Placed host registry devices strings outcome (pos 1) captured (world 3) refl
      refl refl refl

abbrev started : LearnCommandSteps
started = record { name = "power"; icon = none; target_id = none; task = some running }

task_runs-Releases_example :
    let l = task_runs host registry devices strings 30 (runtime (status_in 1)) (started, world 1) in
    ((r : Result LearnOutcome) × (l.0.task ≡ some (finished r)))
    × Releases host registry devices strings "power"
        (async_step_learned host registry devices strings l)
task_runs-Releases_example =
    task_runs-Releases host registry devices strings host-IsTicking 30 started (world 1)
      (omega arith) refl

abbrev change : Option (Dict String Value)
change = some (("name", str "power") ∷ ("icon", str "mdi:fan") ∷ [])

async_step_command-Edits_example :
    Edits host registry devices strings
      (some (pos 1))
      change
      (world 3)
      (async_step_command host registry devices strings (some (pos 1)) change (world 3))
async_step_command-Edits_example =
    async_step_command-Edits host registry devices strings (some (pos 1)) change (world 3)

async_step_replace-Replaces_example :
    let ρ =
      async_step_replace host strings registry devices
        (some [])
        (some ("esphome-1", "rf_", status_in 0), world 0) in
    Replaces host registry devices strings
      ("esphome-1", "rf_")
      (snapshot_of host strings registry devices (world 0).runtime)
      (world 0)
      (ρ.0, ρ.1.1)
async_step_replace-Replaces_example =
    async_step_replace-Replaces host registry devices strings (some []) ("esphome-1", "rf_")
      (status_in 0) (world 0)

abbrev elsewhere : Option (Dict String Value)
elsewhere = some (("esphome_entry_id", str "esphome-2") ∷ [])

async_step_reconfigure-Rebinds_example :
    Rebinds host registry devices strings elsewhere
      (world 3)
      (async_step_reconfigure host strings registry devices
        (entry ∷ [])
        elsewhere
        (none, world 3)).1.1
async_step_reconfigure-Rebinds_example =
    async_step_reconfigure-Rebinds host registry devices strings (entry ∷ []) elsewhere none
      (world 3)

abbrev gate : Dict String Value
gate = ("name", str "Gate") ∷ ("target_type", str "gate") ∷ []

abbrev gate_subentry : ConfigSubentry
gate_subentry = record {
  subentry_id = "s2";
  subentry_type = "target";
  title = "Gate";
  unique_id = some "bridge-1_target_t2";
  content = target_data "t2" gate;
}

creates :
    (async_step_user host registry devices strings "t2" (some gate) (world 3)).0
    ≡ ok (creates_entry "Gate" gate_subentry.content gate_subentry.unique_id)
unfolding async_step_user esphome_rf_cloner.Python.Value.at esphome_rf_cloner.Base.Dict.lookup
    string_eq esphome_rf_cloner.Python.Text.strip esphome_rf_cloner.Python.Value.as_str targets
    from_subentry esphome_rf_cloner.Base.Dict.insert
creates = refl

async_step_user-creates_example :
    (target : RfTarget) × (from_subentry gate_subentry ≡ some target)
    × (target.target_id ≡ "t2")
    × (stripped host gate "name" ≡ ok target.name)
    × (is_empty target.name ≡ false)
    × All (Unlike strings target.name) (values (targets (entry_of (world 3))))
    × (target.target_type ≡ validate_target_type (some (str "gate")))
unfolding validate_target_type string_eq esphome_rf_cloner.Base.Dict.lookup
async_step_user-creates_example =
    async_step_user-creates host registry devices strings "t2" gate (world 3) gate_subentry creates
      refl refl
