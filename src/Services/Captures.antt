-- ===== src/Services/Captures.antt =====
-- What the learn action promises.
use esphome_rf_cloner.Base.{
  ℕ, String, ◌≡◌, refl, sym, ap, ◌∙◌, Bool, true, false, not, if◌then◌else◌, ◌==◌, string_eq,
  Option, none, some, arith,
}
use esphome_rf_cloner.Base.Dict.{Dict}
use esphome_rf_cloner.Python.Result.{Result, ok, err, service_validation_error}
use esphome_rf_cloner.Python.Exec.{>>=-eq-ok}
use esphome_rf_cloner.Python.Value.{Value}
use esphome_rf_cloner.Const.{domain, conf_name}
use esphome_rf_cloner.Entry.{ConfigEntry}
use esphome_rf_cloner.Host.{Host}
use esphome_rf_cloner.Models.BridgeStatus.{BridgeStatus}
use esphome_rf_cloner.Models.Names.{
  validate_command_name, IsStorable, validate_command_name-IsStorable,
}
use esphome_rf_cloner.Transport
use esphome_rf_cloner.Transport.{BridgeTransport}
use esphome_rf_cloner.Coordinator
use esphome_rf_cloner.Coordinator.{LearnOutcome, async_await_learn}
use esphome_rf_cloner.Coordinator.Learning.{IsRead, Captured, async_await_learn-Captured}
use esphome_rf_cloner.Runtime.{RfClonerRuntimeData}
use esphome_rf_cloner.Flow.{stripped}
use esphome_rf_cloner.Services.{
  usable, entry_id_of, resolved_as, resolve_entry, valid_name, checked_name, judged, concluded,
  async_learn,
}

valid_name-IsStorable :
    (given : String) (problem : Option String) {name : String}
    → validate_command_name given ≡ problem
    → valid_name given problem ≡ ok name
    → (given ≡ name) × IsStorable name
valid_name-IsStorable given none {name} valid h =
    let same : given ≡ name = ground arith in
    (same, (validate_command_name-IsStorable name).0 (rw (← same) valid))
valid_name-IsStorable given (some problem) valid h = absurd (ground arith)

usable_if-loaded :
    (found : ConfigEntry) (ours loaded : Bool) {entry : ConfigEntry}
    → (found.domain == domain) ≡ ours
    → found.loaded ≡ loaded
    → (if not ours
        then err (service_validation_error "unknown_entry")
        else if not loaded
        then err (service_validation_error "entry_not_loaded")
        else ok found)
      ≡ ok entry
    → (entry.domain ≡ domain) × (entry.loaded ≡ true)
usable_if-loaded found false loaded p q h = absurd (ground arith)
usable_if-loaded found true false p q h = absurd (ground arith)
usable_if-loaded found true true {entry} p q h =
    let same : found ≡ entry = ground arith in
    ground (arith, ap (λ (e : ConfigEntry). e.domain) same, ap (λ (e : ConfigEntry). e.loaded) same)

usable-loaded :
    (o : Option ConfigEntry) {entry : ConfigEntry}
    → usable o ≡ ok entry
    → (entry.domain ≡ domain) × (entry.loaded ≡ true)
usable-loaded none h = absurd (ground arith)
usable-loaded (some found) h =
    usable_if-loaded found (found.domain == domain) found.loaded refl refl h

module _ (H : Host) (runtimes : String → RfClonerRuntimeData H) where
  resolved_as-loaded :
      (r : Result String) (s : H.State) {entry : ConfigEntry}
      → resolved_as H runtimes r s ≡ ok entry
      → (entry.domain ≡ domain) × (entry.loaded ≡ true)
  resolved_as-loaded (err e) s h = absurd (ground arith)
  resolved_as-loaded (ok entry_id) s h = usable-loaded (H.get_entry s entry_id) h

  resolve_entry-loaded :
      (call : Dict String Value) (s : H.State) {entry : ConfigEntry}
      → resolve_entry H runtimes call s ≡ ok entry
      → (entry.domain ≡ domain) × (entry.loaded ≡ true)
  unfolding resolve_entry
  resolve_entry-loaded call s h = resolved_as-loaded (entry_id_of call) s h

  first {ℓ κ} :
      {A : Type ℓ} {B : Type κ} {a a' : A} {b b' : B} → ◌≡◌ {A = A × B} (a, b) (a', b') → a ≡ a'
  first h = ap (λ ρ. ρ.0) h

  second {ℓ κ} :
      {A : Type ℓ} {B : Type κ} {a a' : A} {b b' : B} → ◌≡◌ {A = A × B} (a, b) (a', b') → b ≡ b'
  second h = ap (λ ρ. ρ.1) h

  stripped-IsStorable :
      (r : Result String) {name : String}
      → (elim r as (λ _. Result String) [
        | err e ↦ err e
        | ok given ↦ valid_name given (validate_command_name given)
      ])
        ≡ ok name
      → (r ≡ ok name) × IsStorable name
  stripped-IsStorable (err e) h = absurd (ground arith)
  stripped-IsStorable (ok given) {name} h =
      let (same, storable) = valid_name-IsStorable given (validate_command_name given) refl h in
      (ap (λ n. ok n) same, storable)

  judged-succeeded :
      (succeeded : Bool) (s s' : H.State)
      → judged H runtimes succeeded s ≡ (ok (some tt), s')
      → (succeeded ≡ true) × (s ≡ s')
  judged-succeeded true s s' h = (refl, second h)
  judged-succeeded false s s' h = absurd (ground (arith, first h))

  concluded-succeeded :
      (o : Option LearnOutcome) (s s' : H.State)
      → concluded H runtimes o s ≡ (ok (some tt), s')
      → (outcome : LearnOutcome) × (o ≡ some outcome) × (outcome.succeeded ≡ true) × (s ≡ s')
  concluded-succeeded none s s' h = absurd (ground (arith, first h))
  concluded-succeeded (some outcome) s s' h =
      let (success, same) = judged-succeeded outcome.succeeded s s' h in
      (outcome, refl, success, same)

  -- A capture that the coordinator reports was read off the device.
  coordinator-Captured :
      (fuel : ℕ) (t : BridgeTransport) (name : String) (s s' : H.State) {outcome : LearnOutcome}
      → Coordinator.async_learn H fuel t name s ≡ (ok (some outcome), s')
      → outcome.succeeded ≡ true
      → (status : BridgeStatus) × (s₂ : H.State) × IsRead H t status s₂
        × Captured H t name outcome status
        × (s' ≡ H.request_refresh s₂)
  unfolding Coordinator.async_learn
  coordinator-Captured fuel t name s s' {outcome} h success =
      let (_, s₁, armed, h₁) = >>=-eq-ok (Transport.async_learn H t name) _ s h in
      let (o, s₂, awaited, h₂) = >>=-eq-ok (async_await_learn H fuel t name) _ s₁ h₁ in
      let same : o ≡ some outcome = ground (arith, first h₂) in
      let (status, read, captured) =
        async_await_learn-Captured H t fuel name s₁ s₂ {outcome = outcome}
          (awaited ∙ ap (λ o. (ok o, s₂)) same) success in
      (status, s₂, read, captured, sym (second h₂))

  -- Where the learn action returns, the call named a loaded bridge of this integration and a name
  -- that the device can store. The last status that was read of the bridge says that it captured,
  -- and lists the name under the command id of the outcome. After that the action has only asked
  -- for a refresh.
  pub async_learn-captures :
      (fuel : ℕ) (call : Dict String Value) (s s' : H.State)
      → async_learn H runtimes fuel call s ≡ (ok (some tt), s')
      → (entry : ConfigEntry) × (name : String) × (outcome : LearnOutcome) × (status : BridgeStatus)
        × (s₂ : H.State) × (resolve_entry H runtimes call s ≡ ok entry)
        × (entry.domain ≡ domain)
        × (entry.loaded ≡ true)
        × (stripped H call conf_name ≡ ok name)
        × IsStorable name
        × IsRead H (runtimes entry.entry_id).transport status s₂
        × Captured H (runtimes entry.entry_id).transport name outcome status
        × (s' ≡ H.request_refresh s₂)
  unfolding async_learn
  async_learn-captures fuel call s s' h =
      let (entry, s₁, found, h₁) = >>=-eq-ok (λ s. (resolve_entry H runtimes call s, s)) _ s h in
      let (name, s₂, checked, h₂) = >>=-eq-ok (λ s. (checked_name H runtimes call, s)) _ s₁ h₁ in
      let t = (runtimes entry.entry_id).transport in
      let (o, s₃, learned, h₃) = >>=-eq-ok (Coordinator.async_learn H fuel t name) _ s₂ h₂ in
      let (outcome, some_outcome, success, same) = concluded-succeeded o s₃ s' h₃ in
      let (given, storable) = stripped-IsStorable (stripped H call conf_name) (first checked) in
      let (status, s₄, read, captured, refreshed) =
        coordinator-Captured fuel t name s₂ s₃ {outcome = outcome}
          (learned ∙ ap (λ o. (ok o, s₃)) some_outcome) success in
      let (ours, loaded) = resolve_entry-loaded call s (first found) in
      (
        entry,
        name,
        outcome,
        status,
        s₄,
        first found,
        ours,
        loaded,
        given,
        storable,
        read,
        captured,
        sym same ∙ refreshed,
      )
