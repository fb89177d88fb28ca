-- ===== src/Flow/Arming.antt =====
-- When the learning steps arm a capture.
use esphome_rf_cloner.Base.{
  ℕ, ◌+◌, String, ◌≡◌, ◌≢◌, refl, ◌∙◌, Bool, true, false, Option, none, some, [], ◌∷◌, ==_self,
  string_eq, int_eq, arith,
}
use esphome_rf_cloner.Base.Dict.{Dict, lookup, insert, has_key, lookup-insert}
use esphome_rf_cloner.Python.Result.{Result, ok, err}
use esphome_rf_cloner.Python.Value.{Value}
use esphome_rf_cloner.Const.{conf_name}
use esphome_rf_cloner.Host.{Host}
use esphome_rf_cloner.Registry.{EntityRegistry}
use esphome_rf_cloner.Devices.{DeviceRegistry}
use esphome_rf_cloner.Models.BridgeStatus.{BridgeStatus, by_name, is_full, accepts_mutations}
use esphome_rf_cloner.Models.Names.{
  validate_command_name, IsStorable, validate_command_name-IsStorable,
}
use esphome_rf_cloner.Reconcile.{async_reserve, reservation_time}
use esphome_rf_cloner.Runtime.{RfClonerRuntimeData, World}
use esphome_rf_cloner.Flow.{FlowResult, show_progress, Strings, stripped}
use esphome_rf_cloner.Flow.Learn.{
  Task, running, LearnCommandSteps, Learning, data_of, async_step_learn, learn_if, learning, named,
  named_if, submitted, opened, asked, guarded, async_step_learn_command,
}

module _ (H : Host) (R : EntityRegistry) (D : DeviceRegistry) (S : Strings) where
  abbrev reserved_in : World H R D → Dict String ℕ
  reserved_in w = w.reconciler.reserved

  -- A learn that a step has just started.
  abbrev pub Armed : BridgeStatus → World H R D → Result FlowResult × Learning H R D S → Type 0
  Armed status w (r, (steps, w')) =
      IsStorable steps.name
      × (has_key steps.name (by_name status) ≡ false)
      × (lookup steps.name w'.reconciler.reserved ≡ some (H.monotonic w.host + reservation_time))
      × (r ≡ ok (show_progress "learn" "learning" (("name", steps.name) ∷ [])))

  lookup-insert_self :
      (name : String) (t : ℕ) (d : Dict String ℕ) → lookup name (insert name t d) ≡ some t
  lookup-insert_self name t d = lookup-insert name name t d ∙ rw (==_self {A = String} name) refl

  learning-Armed :
      (task : Option Task) (status : BridgeStatus) (steps : LearnCommandSteps) (w : World H R D)
      → task ≡ none
      → IsStorable steps.name
      → has_key steps.name (by_name status) ≡ false
      → Armed status w (learning H R D S task (steps, w))
  unfolding async_reserve
  learning-Armed none status steps w idle storable free =
      (storable, free, lookup-insert_self steps.name _ w.reconciler.reserved, refl)
  learning-Armed (some task) status steps w idle storable free = absurd (ground arith)

  learn_if-Armed :
      (o : Option (RfClonerRuntimeData H)) (status : BridgeStatus) (steps : LearnCommandSteps)
      (w : World H R D)
      → data_of H R D S o ≡ some status
      → steps.task ≡ none
      → IsStorable steps.name
      → has_key steps.name (by_name status) ≡ false
      → Armed status w (learn_if H R D S o (steps, w))
  learn_if-Armed none status steps w loaded idle storable free = absurd (ground arith)
  learn_if-Armed (some runtime) status steps w loaded idle storable free =
      learning-Armed steps.task status steps w idle storable free

  -- Whether the run has started a learn.
  abbrev Started : Result FlowResult × Learning H R D S → Type 0
  Started (r, (steps, w)) = steps.task ≡ some running

  not_started : (steps : LearnCommandSteps) → steps.task ≡ none → steps.task ≢ some running
  not_started steps idle h = ground arith

  named_if-Armed :
      (taken : Bool) (status : BridgeStatus) (fields : Dict String Value) (name : String)
      (steps : LearnCommandSteps) (w : World H R D)
      → data_of H R D S w.runtime ≡ some status
      → steps.task ≡ none
      → validate_command_name name ≡ none
      → has_key name (by_name status) ≡ taken
      → Started (named_if H R D S status fields name taken (steps, w))
      → Armed status w (named_if H R D S status fields name taken (steps, w))
  unfolding async_step_learn
  named_if-Armed true status fields name steps w loaded idle valid free started =
      absurd (not_started steps idle started)
  named_if-Armed false status fields name steps w loaded idle valid free started =
      learn_if-Armed w.runtime status _ w loaded idle
        ((validate_command_name-IsStorable name).0 valid) free

  named-Armed :
      (problem : Option String) (status : BridgeStatus) (fields : Dict String Value) (name : String)
      (steps : LearnCommandSteps) (w : World H R D)
      → data_of H R D S w.runtime ≡ some status
      → steps.task ≡ none
      → validate_command_name name ≡ problem
      → Started (named H R D S status fields name problem (steps, w))
      → Armed status w (named H R D S status fields name problem (steps, w))
  named-Armed (some problem) status fields name steps w loaded idle valid started =
      absurd (not_started steps idle started)
  named-Armed none status fields name steps w loaded idle valid started =
      named_if-Armed (has_key name (by_name status)) status fields name steps w loaded idle valid
        refl started

  submitted-Armed :
      (r : Result String) (status : BridgeStatus) (fields : Dict String Value)
      (steps : LearnCommandSteps) (w : World H R D)
      → data_of H R D S w.runtime ≡ some status
      → steps.task ≡ none
      → Started (submitted H R D S status fields r (steps, w))
      → Armed status w (submitted H R D S status fields r (steps, w))
  submitted-Armed (err e) status fields steps w loaded idle started =
      absurd (not_started steps idle started)
  submitted-Armed (ok name) status fields steps w loaded idle started =
      named-Armed (validate_command_name name) status fields name steps w loaded idle refl started

  asked-Armed :
      (user_input : Option (Dict String Value)) (status : BridgeStatus) (steps : LearnCommandSteps)
      (w : World H R D)
      → data_of H R D S w.runtime ≡ some status
      → steps.task ≡ none
      → Started (asked H R D S user_input status (steps, w))
      → Armed status w (asked H R D S user_input status (steps, w))
  asked-Armed none status steps w loaded idle started = absurd (not_started steps idle started)
  asked-Armed (some fields) status steps w loaded idle started =
      submitted-Armed (stripped H fields conf_name) status fields steps w loaded idle started

  opened-Armed :
      (accepts full : Bool) (user_input : Option (Dict String Value)) (status : BridgeStatus)
      (steps : LearnCommandSteps) (w : World H R D)
      → data_of H R D S w.runtime ≡ some status
      → steps.task ≡ none
      → Started (opened H R D S accepts full user_input status (steps, w))
      → (accepts ≡ true)
        × (full ≡ false)
        × Armed status w (opened H R D S accepts full user_input status (steps, w))
  opened-Armed false full user_input status steps w loaded idle started =
      absurd (not_started steps idle started)
  opened-Armed true true user_input status steps w loaded idle started =
      absurd (not_started steps idle started)
  opened-Armed true false user_input status steps w loaded idle started =
      (refl, refl, asked-Armed user_input status steps w loaded idle started)

  guarded-Armed :
      (o : Option BridgeStatus) (user_input : Option (Dict String Value))
      (steps : LearnCommandSteps) (w : World H R D)
      → data_of H R D S w.runtime ≡ o
      → steps.task ≡ none
      → Started (guarded H R D S user_input o (steps, w))
      → (status : BridgeStatus) × (o ≡ some status)
        × (accepts_mutations status ≡ true)
        × (is_full status ≡ false)
        × Armed status w (guarded H R D S user_input o (steps, w))
  guarded-Armed none user_input steps w loaded idle started =
      absurd (not_started steps idle started)
  guarded-Armed (some status) user_input steps w loaded idle started =
      let (accepts, room, armed) =
        opened-Armed (accepts_mutations status) (is_full status) user_input status steps w loaded
          idle started in
      (status, refl, accepts, room, armed)

  -- A step of the learn form starts a learn only on a loaded bridge whose last status accepts
  -- mutations and is not full, and only of a name that the device can store and does not list.
  -- Before the capture is armed the name is claimed, for the time of a reservation, and the flow
  -- shows progress. The flow has not started one before.
  pub async_step_learn_command-Armed :
      (user_input : Option (Dict String Value)) (steps : LearnCommandSteps) (w : World H R D)
      → steps.task ≡ none
      → (async_step_learn_command H R D S user_input (steps, w)).1.0.task ≡ some running
      → (status : BridgeStatus) × (data_of H R D S w.runtime ≡ some status)
        × (accepts_mutations status ≡ true)
        × (is_full status ≡ false)
        × Armed status w (async_step_learn_command H R D S user_input (steps, w))
  unfolding async_step_learn_command
  async_step_learn_command-Armed user_input steps w idle started =
      guarded-Armed (data_of H R D S w.runtime) user_input steps w refl idle started
