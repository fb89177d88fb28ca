-- ===== src/Flow/Placed.antt =====
-- How a learn ends: the command in its place, and its claim released.
use mathlib.Core.Path.{subst}
use esphome_rf_cloner.Base.{
  ℕ, ◌≤◌, ℤ, String, ◌≡◌, ◌≢◌, ◌⊎◌, inl, inr, refl, sym, ap, ◌∙◌, Bool, true, false, Option, none,
  some, [], ◌∷◌, if◌then◌else◌, ◌==◌, ==_self, string_eq, int_eq,
}
use esphome_rf_cloner.Base.Dict.{Dict, lookup, lookup-erase}
use esphome_rf_cloner.Python.Result.{Result, ok, err, Exception, is_home_assistant_error}
use esphome_rf_cloner.Python.Exec
use esphome_rf_cloner.Python.Exec.{◌>>=◌}
use esphome_rf_cloner.Host.{Host, IsTicking}
use esphome_rf_cloner.Transport
use esphome_rf_cloner.Transport.{BridgeTransport}
use esphome_rf_cloner.Registry.{EntityRegistry}
use esphome_rf_cloner.Devices.{DeviceRegistry}
use esphome_rf_cloner.Coordinator
use esphome_rf_cloner.Coordinator.{LearnOutcome, async_await_learn}
use esphome_rf_cloner.Coordinator.Learning.{async_await_learn_ends}
use esphome_rf_cloner.Targets.{CommandMeta, command_meta}
use esphome_rf_cloner.Targets.Options.{updated, command_meta-options_with_one}
use esphome_rf_cloner.Reconcile.{async_release}
use esphome_rf_cloner.Runtime.{RfClonerRuntimeData, World, entry_of}
use esphome_rf_cloner.Flow.{FlowResult, aborts, Strings, where_is}
use esphome_rf_cloner.Flow.Learn.{
  finished, LearnCommandSteps, Learning, chosen_of, id_of, icon_for, learned_as, stored, judged,
  raised, result_of, learned_if, async_step_learned, release, ended, task_runs,
}

module _ (H : Host) (R : EntityRegistry) (D : DeviceRegistry) (S : Strings) where
  -- The claims of a world.
  abbrev pub claims : World H R D → Dict String ℕ
  claims w = w.reconciler.reserved

  released :
      (name other : String) (w : World H R D)
      → lookup other (claims (release H R D S name w))
        ≡ (if other == name then none else lookup other (claims w))
  unfolding async_release
  released name other w = lookup-erase other name (claims w)

  -- What the learn has left: the command's organisation, the other commands', and the claims.
  abbrev pub Placed :
      LearnCommandSteps
      → LearnOutcome
      → ℤ
      → World H R D
      → Result FlowResult × Learning H R D S
      → Type 0
  Placed steps outcome command_id w (r, (steps', w')) =
      let target = chosen_of (entry_of w) steps.target_id in
      let meta : CommandMeta = record {
        target_id = id_of target;
        icon = some (icon_for H R D S steps.icon outcome.name target);
      } in
      (r ≡ ok (aborts "learned" (("name", outcome.name) ∷ ("target", where_is target) ∷ [])))
      × ((k : ℤ)
          → lookup k (command_meta (entry_of w'))
            ≡ updated (if k == command_id then some meta else none)
                (lookup k (command_meta (entry_of w))))
      × ((name : String)
          → lookup name (claims w') ≡ (if name == steps.name then none else lookup name (claims w)))
      × (w'.host ≡ w.host)
      × (w'.reconciler.registry ≡ w.reconciler.registry)

  learned_as-Placed :
      (outcome : LearnOutcome) (command_id : ℤ) (steps : LearnCommandSteps) (w : World H R D)
      → Placed steps outcome command_id w (learned_as H R D S outcome command_id (steps, w))
  unfolding async_release
  learned_as-Placed outcome command_id steps w =
      let entry = entry_of w in
      let target = chosen_of entry steps.target_id in
      let meta : CommandMeta = record {
        target_id = id_of target;
        icon = some (icon_for H R D S steps.icon outcome.name target);
      } in
      (
        refl,
        (λ k. command_meta-options_with_one entry command_id meta k),
        (λ name. released steps.name name w),
        refl,
        refl,
      )

  -- A learn that has captured a command ends with the reason `learned`. That command is recorded
  -- under the chosen target, if there still is one, with the chosen icon or a suggested one; every
  -- other command's organisation is as it was. The claim on the name is released and no other, and
  -- neither the host nor the entity registry is touched.
  pub async_step_learned-Placed :
      (outcome : LearnOutcome) (command_id : ℤ) (steps : LearnCommandSteps) (w : World H R D)
      {runtime : RfClonerRuntimeData H}
      → w.runtime ≡ some runtime
      → steps.task ≡ some (finished (ok outcome))
      → outcome.succeeded ≡ true
      → outcome.command_id ≡ some command_id
      → Placed steps outcome command_id w (async_step_learned H R D S (steps, w))
  unfolding async_step_learned
  async_step_learned-Placed outcome command_id steps w {runtime} loaded task success found =
      let l : Learning H R D S = (steps, w) in
      let same =
        ap (λ t. learned_if H R D S t w.runtime l) task
        ∙ ap (λ o. learned_if H R D S (some (finished (ok outcome))) o l) loaded
        ∙ ap (λ b. judged H R D S outcome b outcome.command_id l) success
        ∙ ap (λ c. judged H R D S outcome true c l) found in
      subst (Placed steps outcome command_id w) (sym same)
        (learned_as-Placed outcome command_id steps w)

  -- A step that has released the claim on a name, or that passes on an exception which is none of
  -- Home Assistant's.
  abbrev pub Releases : String → Result FlowResult × Learning H R D S → Type 0
  Releases name (r, (steps, w)) =
      (lookup name (claims w) ≡ none)
      ⊎ ((e : Exception) × (r ≡ err e) × (is_home_assistant_error e ≡ false))

  released_self :
      (name : String) (w : World H R D) → lookup name (claims (release H R D S name w)) ≡ none
  released_self name w = released name name w ∙ rw (==_self {A = String} name) refl

  judged-Releases :
      (outcome : LearnOutcome) (succeeded : Bool) (command_id : Option ℤ)
      (steps : LearnCommandSteps) (w : World H R D)
      → Releases steps.name (judged H R D S outcome succeeded command_id (steps, w))
  judged-Releases outcome true (some command_id) steps w =
      inl (released_self steps.name (stored H R D S command_id _ _ w))
  judged-Releases outcome true none steps w = inl (released_self steps.name w)
  judged-Releases outcome false command_id steps w = inl (released_self steps.name w)

  raised-Releases :
      (e : Exception) (b : Bool) (steps : LearnCommandSteps) (w : World H R D)
      → is_home_assistant_error e ≡ b
      → Releases steps.name (raised H R D S e b (steps, w))
  raised-Releases e true steps w h = inl (released_self steps.name w)
  raised-Releases e false steps w h = inr (e, refl, h)

  result_of-Releases :
      (r : Result LearnOutcome) (steps : LearnCommandSteps) (w : World H R D)
      → Releases steps.name (result_of H R D S (finished r) (steps, w))
  result_of-Releases (err e) steps w = raised-Releases e (is_home_assistant_error e) steps w refl
  result_of-Releases (ok outcome) steps w =
      judged-Releases outcome outcome.succeeded outcome.command_id steps w

  learned-Releases :
      (r : Result LearnOutcome) (steps : LearnCommandSteps) (w : World H R D)
      {runtime : RfClonerRuntimeData H}
      → w.runtime ≡ some runtime
      → steps.task ≡ some (finished r)
      → Releases steps.name (async_step_learned H R D S (steps, w))
  unfolding async_step_learned
  learned-Releases r steps w {runtime} loaded task =
      let l : Learning H R D S = (steps, w) in
      let same =
        ap (λ t. learned_if H R D S t w.runtime l) task
        ∙ ap (λ o. learned_if H R D S (some (finished r)) o l) loaded in
      subst (Releases steps.name) (sym same) (result_of-Releases r steps w)

  refreshed_ends :
      (r : Result (Option LearnOutcome)) (s : H.State)
      → r ≢ ok none
      → (Exec.continue r (Coordinator.refreshed H) s).0 ≢ ok none
  refreshed_ends (ok none) s h = λ _. h refl
  refreshed_ends (ok (some outcome)) s h = λ k. cc
  refreshed_ends (err e) s h = λ k. cc

  learn_ends :
      (law : IsTicking H) (t : BridgeTransport) (fuel : ℕ) (name : String) (r : Result (Unit {0}))
      (s : H.State)
      → 30 ≤ fuel
      → (Exec.continue r (λ _. async_await_learn H fuel t name >>= Coordinator.refreshed H) s).0
        ≢ ok none
  learn_ends law t fuel name (err e) s enough = λ k. cc
  learn_ends law t fuel name (ok _) s enough =
      refreshed_ends _ _ (async_await_learn_ends H law t fuel name s enough)

  async_learn_ends :
      (law : IsTicking H) (t : BridgeTransport) (fuel : ℕ) (name : String) (s : H.State)
      → 30 ≤ fuel
      → (Coordinator.async_learn H fuel t name s).0 ≢ ok none
  unfolding Coordinator.async_learn
  async_learn_ends law t fuel name s enough =
      let (r, s') = Transport.async_learn H t name s in learn_ends law t fuel name r s' enough

  ended-finished :
      (r : Result (Option LearnOutcome))
      → r ≢ ok none
      → (q : Result LearnOutcome) × (ended H R D S r ≡ some (finished q))
  ended-finished (ok none) h = absurd (h refl)
  ended-finished (ok (some outcome)) h = (ok outcome, refl)
  ended-finished (err e) h = (err e, refl)

  -- Every learn comes to an end, if the clock does not run backwards: with the thirty polls that its
  -- time allows its task has finished, and the flow's last step then has released the claim on the
  -- name, whether the capture succeeded, failed, timed out or met an error of Home Assistant's. Only
  -- another exception is passed on, and leaves the claim to lapse.
  pub task_runs-Releases :
      (law : IsTicking H) (fuel : ℕ) (steps : LearnCommandSteps) (w : World H R D)
      {runtime : RfClonerRuntimeData H}
      → 30 ≤ fuel
      → w.runtime ≡ some runtime
      → let l = task_runs H R D S fuel runtime (steps, w) in
        ((r : Result LearnOutcome) × (l.0.task ≡ some (finished r)))
        × Releases steps.name (async_step_learned H R D S l)
  unfolding task_runs
  task_runs-Releases law fuel steps w {runtime} enough loaded =
      let (r, s) = Coordinator.async_learn H fuel runtime.transport steps.name w.host in
      let (q, same) =
        ended-finished r (async_learn_ends law runtime.transport fuel steps.name w.host enough) in
      (
        (q, same),
        learned-Releases q (record steps { task = ended H R D S r }) (record w { host = s }) loaded
            same,
      )
