-- ===== src/Flow/Edited.antt =====
-- What managing a command may write.
use esphome_rf_cloner.Base.{
  ℤ, String, ◌≡◌, ◌≢◌, ◌⊎◌, arith, eq_of_==, inl, inr, refl, ap, ◌∙◌, Bool, true, false, Option,
  none, some, [], if◌then◌else◌, ◌==◌, string_eq, int_eq,
}
use esphome_rf_cloner.Base.Dict.{Dict, lookup}
use esphome_rf_cloner.Python.Result.{Result, ok, err, Exception, is_home_assistant_error}
use esphome_rf_cloner.Python.Value.{Value, null, get, truth}
use esphome_rf_cloner.Const.{conf_name}
use esphome_rf_cloner.Host.{Host}
use esphome_rf_cloner.Registry.{EntityRegistry}
use esphome_rf_cloner.Devices.{DeviceRegistry}
use esphome_rf_cloner.Models.CommandInfo.{CommandInfo}
use esphome_rf_cloner.Models.BridgeStatus.{BridgeStatus, by_id, by_name, accepts_mutations}
use esphome_rf_cloner.Models.Names.{
  validate_command_name, IsStorable, validate_command_name-IsStorable,
}
use esphome_rf_cloner.Coordinator
use esphome_rf_cloner.Targets.{CommandMeta, command_meta}
use esphome_rf_cloner.Targets.Options.{updated, command_meta-options_with_one}
use esphome_rf_cloner.Runtime.{RfClonerRuntimeData, World, entry_of}
use esphome_rf_cloner.Flow.{FlowResult, aborts, Strings, stripped}
use esphome_rf_cloner.Flow.Delete.{loaded_of, confirmed, found, opened, async_step_confirm_delete}
use esphome_rf_cloner.Flow.Command.{
  taken, Renaming, refused, renamed_with, failed, done, rename_on, rename_if, submitted_meta, save,
  settled, free_if, checked, submitted, changed_or_deleted, edited, async_step_command,
}

module _ (H : Host) (R : EntityRegistry) (D : DeviceRegistry) (S : Strings) where
  -- The metadata of one command were replaced, and nothing else of the organisation.
  abbrev pub Rewrites : ℤ → CommandMeta → World H R D → World H R D → Type 0
  Rewrites command_id meta w w' =
      (k : ℤ)
      → lookup k (command_meta (entry_of w'))
        ≡ updated (if k == command_id then some meta else none)
            (lookup k (command_meta (entry_of w)))

  -- Nothing was saved, and the step does not say that it was.
  abbrev pub Unsaved : World H R D → Result FlowResult × World H R D → Type 0
  Unsaved w (r, w') = (entry_of w' ≡ entry_of w) × (r ≢ ok (aborts "command_saved" []))

  -- The command has the name: it had it before and nothing was asked, or the bridge accepts
  -- mutations and the rename to that name was made, without an error.
  abbrev pub Renamed :
      RfClonerRuntimeData H → BridgeStatus → ℤ → CommandInfo → String → H.State → H.State → Type 0
  Renamed runtime status command_id command name s s' =
      ((name ≡ command.name) × (s' ≡ s))
      ⊎ ((name ≢ command.name)
          × (accepts_mutations status ≡ true)
          × (Coordinator.async_rename H runtime.transport command_id name s ≡ (ok tt, s')))

  -- What a submission for this command may have led to: nothing was saved, or the submission was,
  -- under a name that the device can store, that no other command has and that the command has now.
  abbrev pub Saved :
      RfClonerRuntimeData H
      → BridgeStatus
      → ℤ
      → CommandInfo
      → Dict String Value
      → World H R D
      → Result FlowResult × World H R D
      → Type 0
  Saved runtime status command_id command fields w (r, w') =
      Unsaved w (r, w')
      ⊎ ((name : String) × (stripped H fields conf_name ≡ ok name)
          × IsStorable name
          × (taken command_id (lookup name (by_name status)) ≡ false)
          × Renamed runtime status command_id command name w.host w'.host
          × (r ≡ ok (aborts "command_saved" []))
          × Rewrites command_id (submitted_meta H R D S fields) w w')

  save-Rewrites :
      (command_id : ℤ) (meta : CommandMeta) (w : World H R D)
      → Rewrites command_id meta w (save H R D S command_id meta w)
  save-Rewrites command_id meta w k = command_meta-options_with_one (entry_of w) command_id meta k

  module _ (runtime : RfClonerRuntimeData H) (status : BridgeStatus) (command_id : ℤ)
      (command : CommandInfo) (fields : Dict String Value) where
    -- If the rename is done, the command has the name.
    abbrev IsDone : String → World H R D → Result Renaming × World H R D → Type 0
    IsDone name w (ok done, w₁) = Renamed runtime status command_id command name w.host w₁.host
    IsDone name w (r, w₁) = Unit {0}

    failed-IsDone :
        (e : Exception) (b : Bool) (name : String) (w w₁ : World H R D)
        → IsDone name w (elim b as (λ _. Result Renaming) [ true ↦ ok failed | false ↦ err e ], w₁)
    failed-IsDone e true name w w₁ = tt
    failed-IsDone e false name w w₁ = tt

    renamed-IsDone :
        (r : Result (Unit {0})) (s : H.State) (name : String) (w : World H R D)
        → name ≢ command.name
        → accepts_mutations status ≡ true
        → Coordinator.async_rename H runtime.transport command_id name w.host ≡ (r, s)
        → IsDone name w (renamed_with H R D S r, record w { host = s })
    renamed-IsDone (ok _) s name w other accepts made = inr (other, accepts, made)
    renamed-IsDone (err e) s name w other accepts made =
        failed-IsDone e (is_home_assistant_error e) name w (record w { host = s })

    rename_on-IsDone :
        (accepts : Bool) (name : String) (w : World H R D)
        → name ≢ command.name
        → accepts_mutations status ≡ accepts
        → IsDone name w (rename_on H R D S runtime command_id name accepts w)
    rename_on-IsDone false name w other accepts = tt
    rename_on-IsDone true name w other accepts = renamed-IsDone _ _ name w other accepts refl

    rename_if-IsDone :
        (same : Bool) (name : String) (w : World H R D)
        → (name == command.name) ≡ same
        → IsDone name w (rename_if H R D S runtime status command_id name same w)
    rename_if-IsDone true name w equal = inl (eq_of_== name command.name equal, refl)
    rename_if-IsDone false name w equal =
        rename_on-IsDone (accepts_mutations status) name w (ground arith) refl

    settled-Saved :
        (r : Result Renaming) (name : String) (w w₁ : World H R D)
        → entry_of w₁ ≡ entry_of w
        → stripped H fields conf_name ≡ ok name
        → IsStorable name
        → taken command_id (lookup name (by_name status)) ≡ false
        → IsDone name w (r, w₁)
        → Saved runtime status command_id command fields w
            (settled H R D S command_id command fields r w₁)
    settled-Saved (err e) name w w₁ same given storable free is_done = inl (same, λ h. cc)
    settled-Saved (ok refused) name w w₁ same given storable free is_done = inl (same, λ h. cc)
    settled-Saved (ok failed) name w w₁ same given storable free is_done = inl (same, λ h. cc)
    settled-Saved (ok done) name w w₁ same given storable free is_done = inr (
      name,
      given,
      storable,
      free,
      is_done,
      refl,
      (λ k.
          save-Rewrites command_id (submitted_meta H R D S fields) w₁ k
          ∙ ap
              (λ e.
                updated (if k == command_id then some (submitted_meta H R D S fields) else none)
                  (lookup k (command_meta e)))
              same),
    )

    rename_on-entry :
        (accepts : Bool) (name : String) (w : World H R D)
        → entry_of (rename_on H R D S runtime command_id name accepts w).1 ≡ entry_of w
    rename_on-entry false name w = refl
    rename_on-entry true name w = refl

    rename_if-entry :
        (same : Bool) (name : String) (w : World H R D)
        → entry_of (rename_if H R D S runtime status command_id name same w).1 ≡ entry_of w
    rename_if-entry true name w = refl
    rename_if-entry false name w = rename_on-entry (accepts_mutations status) name w

    free_if-Saved :
        (clash : Bool) (name : String) (w : World H R D)
        → stripped H fields conf_name ≡ ok name
        → IsStorable name
        → taken command_id (lookup name (by_name status)) ≡ clash
        → Saved runtime status command_id command fields w
            (free_if H R D S runtime status command_id command fields name clash w)
    free_if-Saved true name w given storable free = inl (refl, λ h. cc)
    free_if-Saved false name w given storable free =
        let (r, w₁) = rename_if H R D S runtime status command_id name (name == command.name) w in
        settled-Saved r name w w₁ (rename_if-entry (name == command.name) name w) given storable
          free (rename_if-IsDone (name == command.name) name w refl)

    checked-Saved :
        (problem : Option String) (name : String) (w : World H R D)
        → stripped H fields conf_name ≡ ok name
        → validate_command_name name ≡ problem
        → Saved runtime status command_id command fields w
            (checked H R D S runtime status command_id command fields name problem w)
    checked-Saved (some problem) name w given valid = inl (refl, λ h. cc)
    checked-Saved none name w given valid =
        free_if-Saved (taken command_id (lookup name (by_name status))) name w given
          ((validate_command_name-IsStorable name).0 valid) refl

    submitted-Saved :
        (r : Result String) (w : World H R D)
        → stripped H fields conf_name ≡ r
        → Saved runtime status command_id command fields w
            (submitted H R D S runtime status command_id command fields r w)
    submitted-Saved (err e) w given = inl (refl, λ h. cc)
    submitted-Saved (ok name) w given = checked-Saved (validate_command_name name) name w given refl

  confirm_found-Unsaved :
      (runtime : RfClonerRuntimeData H) (status : BridgeStatus) (command_id : ℤ)
      (o : Option CommandInfo) (w : World H R D)
      → Unsaved w (found H R D S (confirmed H R D S none) runtime status command_id o w)
  confirm_found-Unsaved runtime status command_id none w = (refl, λ h. cc)
  confirm_found-Unsaved runtime status command_id (some command) w = (refl, λ h. cc)

  confirm_opened-Unsaved :
      (o : Option (RfClonerRuntimeData H × BridgeStatus)) (chosen : Option ℤ) (w : World H R D)
      → Unsaved w (opened H R D S (confirmed H R D S none) o chosen w)
  confirm_opened-Unsaved none chosen w = (refl, λ h. cc)
  confirm_opened-Unsaved (some loaded) none w = (refl, λ h. cc)
  confirm_opened-Unsaved (some (runtime, status)) (some command_id) w =
      confirm_found-Unsaved runtime status command_id (lookup command_id (by_id status)) w

  -- Asking for the confirmation of a deletion saves nothing.
  async_step_confirm_delete-Unsaved :
      (chosen : Option ℤ) (w : World H R D)
      → Unsaved w (async_step_confirm_delete H R D S chosen none w)
  unfolding async_step_confirm_delete
  async_step_confirm_delete-Unsaved chosen w = confirm_opened-Unsaved (loaded_of w.runtime) chosen w

  -- What a step may have led to.
  abbrev pub Edits :
      Option ℤ → Option (Dict String Value) → World H R D → Result FlowResult × World H R D → Type 0
  Edits chosen user_input w ρ =
      Unsaved w ρ
      ⊎ ((runtime : RfClonerRuntimeData H) × (status : BridgeStatus) × (command_id : ℤ)
          × (command : CommandInfo) × (fields : Dict String Value) × (loaded_of w.runtime
              ≡ some (runtime, status))
          × (chosen ≡ some command_id)
          × (lookup command_id (by_id status) ≡ some command)
          × (user_input ≡ some fields)
          × Saved runtime status command_id command fields w ρ)

  deleted-Saved :
      (deletes : Bool) (runtime : RfClonerRuntimeData H) (status : BridgeStatus) (command_id : ℤ)
      (command : CommandInfo) (fields : Dict String Value) (w : World H R D)
      → Saved runtime status command_id command fields w
          (changed_or_deleted H R D S fields runtime status command_id command deletes w)
  deleted-Saved true runtime status command_id command fields w =
      inl (async_step_confirm_delete-Unsaved (some command_id) w)
  deleted-Saved false runtime status command_id command fields w =
      submitted-Saved runtime status command_id command fields (stripped H fields conf_name) w refl

  edit_found-Edits :
      (user_input : Option (Dict String Value)) (runtime : RfClonerRuntimeData H)
      (status : BridgeStatus) (command_id : ℤ) (o : Option CommandInfo) (w : World H R D)
      → loaded_of w.runtime ≡ some (runtime, status)
      → lookup command_id (by_id status) ≡ o
      → Edits
          (some command_id)
          user_input
          w
          (found H R D S (edited H R D S user_input) runtime status command_id o w)
  edit_found-Edits user_input runtime status command_id none w loaded listed = inl (refl, λ h. cc)
  edit_found-Edits none runtime status command_id (some command) w loaded listed =
      inl (refl, λ h. cc)
  edit_found-Edits (some fields) runtime status command_id (some command) w loaded listed = inr (
    runtime,
    status,
    command_id,
    command,
    fields,
    loaded,
    refl,
    listed,
    refl,
    deleted-Saved (truth (get fields "delete" null)) runtime status command_id command fields w,
  )

  edit_opened-Edits :
      (user_input : Option (Dict String Value)) (o : Option (RfClonerRuntimeData H × BridgeStatus))
      (chosen : Option ℤ) (w : World H R D)
      → loaded_of w.runtime ≡ o
      → Edits chosen user_input w (opened H R D S (edited H R D S user_input) o chosen w)
  edit_opened-Edits user_input none chosen w loaded = inl (refl, λ h. cc)
  edit_opened-Edits user_input (some opened) none w loaded = inl (refl, λ h. cc)
  edit_opened-Edits user_input (some (runtime, status)) (some command_id) w loaded =
      edit_found-Edits user_input runtime status command_id (lookup command_id (by_id status)) w
        loaded refl

  -- Whatever is submitted to the step of a command, and whatever the bridge answers: either the
  -- entry is as it was and the step does not end with `command_saved`, or it does, and the
  -- organisation of the chosen command, and of no other, is what was submitted. Then the submitted
  -- name is one that the device can store, and no other command of the last status has it; and
  -- unless the command had that name already, the bridge accepts mutations and the rename to it was
  -- made without an error.
  pub async_step_command-Edits :
      (chosen : Option ℤ) (user_input : Option (Dict String Value)) (w : World H R D)
      → Edits chosen user_input w (async_step_command H R D S chosen user_input w)
  unfolding async_step_command
  async_step_command-Edits chosen user_input w =
      edit_opened-Edits user_input (loaded_of w.runtime) chosen w refl
