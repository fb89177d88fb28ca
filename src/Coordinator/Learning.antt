-- ===== src/Coordinator/Learning.antt =====
-- The polling of a learn: that it ends, and what its outcome says about the device.
use esphome_rf_cloner.Base.{
  ℕ, zero, suc, ◌+◌, ◌*◌, ◌≤◌, String, [], ◌≡◌, ◌≢◌, refl, Bool, true, false, ◌&&◌, Option, none,
  some, ltb, Bool-cases, ◌==◌, string_eq, arith, ap, inl, inr, eq_of_==,
}
use esphome_rf_cloner.Base.Dict.{Dict, lookup}
use esphome_rf_cloner.Python.Result.{Result, ok, err}
use esphome_rf_cloner.Python.Exec.{Exec, pure, lift, continue, ◌>>=◌, ◌>>◌, >>=-eq-ok}
use esphome_rf_cloner.Python.Value.{Value}
use esphome_rf_cloner.Const.{learn_poll_interval, learn_timeout, esphome_domain}
use esphome_rf_cloner.Host.{Host, IsTicking}
use esphome_rf_cloner.Models.CommandInfo.{CommandInfo}
use esphome_rf_cloner.Models.BridgeStatus
use esphome_rf_cloner.Models.BridgeStatus.{BridgeStatus, by_name}
use esphome_rf_cloner.Transport
use esphome_rf_cloner.Transport.{
  BridgeTransport, async_status, call, call_service, service_name, asserted,
}
use esphome_rf_cloner.Coordinator.{
  LearnOutcome, captured, outcome_of, timed_out, poll, concluded, async_await_learn,
}

module _ (H : Host) (t : BridgeTransport) where
  abbrev settle : String → BridgeStatus → Bool → Exec H.State (Option LearnOutcome)
  settle name status armed = elim armed [
    | true ↦ (Transport.async_cancel H t >> pure (some (timed_out name)))
    | false ↦ pure (some (outcome_of name status))
  ]

module _ (H : Host) (ticking : IsTicking H) (t : BridgeTransport) where
  call_service-clock :
      (o : Option String) (d : Dict String Value) (r : Bool) (s : H.State)
      → H.monotonic s ≤ H.monotonic (call_service H o d r s).1
  call_service-clock none d r s = omega arith
  call_service-clock (some service) d r s = ticking.call_advances esphome_domain service d r s

  lifted-clock :
      {A B : Type 0} (x : Result A) (f : A → Result B) (s : H.State)
      → (continue x (λ a. lift (f a)) s).1 ≡ s
  lifted-clock (ok a) f s = refl
  lifted-clock (err e) f s = refl

  lifted_twice-clock :
      {A B C : Type 0} (x : Result A) (f : A → Result B) (g : B → Result C) (s : H.State)
      → (continue x (λ a. lift (f a) >>= λ b. lift (g b)) s).1 ≡ s
  lifted_twice-clock (ok a) f g s = lifted-clock (f a) g s
  lifted_twice-clock (err e) f g s = refl

  async_status-clock : (s : H.State) → H.monotonic s ≤ H.monotonic (async_status H t s).1
  unfolding async_status call
  async_status-clock s =
      let (r, s') = call_service H (service_name H t "status" s) [] true s in
      rw (lifted_twice-clock r asserted (BridgeStatus.from_payload H.repr) s')
        (call_service-clock (service_name H t "status" s) [] true s)

  continue_ends :
      (deadline fuel : ℕ) (r : Result BridgeStatus) (s : H.State)
      → ((next : BridgeStatus) → (poll H fuel t deadline next s).0 ≢ ok none)
      → (continue r (λ next. poll H fuel t deadline next) s).0 ≢ ok none
  continue_ends deadline fuel (ok next) s ends = ends next
  continue_ends deadline fuel (err e) s ends = λ h. cc

  abbrev round : ℕ → ℕ → BridgeStatus → H.State → Bool → Result (Option BridgeStatus) × H.State
  round fuel deadline status s waits = elim waits [
    | false ↦ (ok (some status), s)
    | true ↦
        (async_status H t >>= λ next. poll H fuel t deadline next) (H.sleep learn_poll_interval s)
  ]

  abbrev Ends : Result (Option BridgeStatus) × H.State → Type 0
  Ends ρ = ρ.0 ≢ ok none

  last-Ends :
      (deadline : ℕ) (status : BridgeStatus) (s : H.State)
      → deadline ≤ H.monotonic s
      → (armed : Bool)
      → Ends (elim (armed && ltb (H.monotonic s) deadline) [
        | false ↦ (ok (some status), s)
        | true ↦ (ok none, s)
      ])
  last-Ends deadline status s late armed = ground arith

  round-Ends :
      (fuel deadline : ℕ) (status : BridgeStatus) (s : H.State)
      → deadline ≤ H.monotonic s + suc fuel * learn_poll_interval
      → ((next : BridgeStatus) (s' : H.State)
          → deadline ≤ H.monotonic s' + fuel * learn_poll_interval
          → Ends (poll H fuel t deadline next s'))
      → (waits : Bool) → Ends (round fuel deadline status s waits)
  round-Ends fuel deadline status s late rest false = λ h. cc
  round-Ends fuel deadline status s late rest true =
      let slept = H.sleep learn_poll_interval s in
      continue_ends deadline fuel (async_status H t slept).0 (async_status H t slept).1 (λ next.
        rest next (async_status H t slept).1 (
          omega
            (arith, late, ticking.sleep_advances learn_poll_interval s, async_status-clock slept)))

  -- Every round of the loop sleeps for a second, so it takes no more rounds than there are seconds
  -- until the deadline.
  pub poll-Ends :
      (fuel deadline : ℕ) (status : BridgeStatus) (s : H.State)
      → deadline ≤ H.monotonic s + fuel * learn_poll_interval
      → Ends (poll H fuel t deadline status s)
  unfolding poll
  poll-Ends zero deadline status s late =
      last-Ends deadline status s (omega (arith, late)) (status.state == "armed")
  poll-Ends (suc fuel) deadline status s late =
      round-Ends fuel deadline status s late (poll-Ends fuel deadline)
        (status.state == "armed" && ltb (H.monotonic s) deadline)

  cancelled_ends :
      {A : Type 0} (r : Result (Unit {0})) (a : A) (s : H.State)
      → ◌≢◌ {A = Result (Option A)} (continue r (λ _. pure (some a)) s).0 (ok none)
  cancelled_ends (ok _) a s = λ h. cc
  cancelled_ends (err e) a s = λ h. cc

  settled_ends :
      (name : String) (status : BridgeStatus) (s : H.State) (armed : Bool)
      → (settle H t name status armed s).0 ≢ ok none
  settled_ends name status s true =
      cancelled_ends (Transport.async_cancel H t s).0 (timed_out name)
        (Transport.async_cancel H t s).1
  settled_ends name status s false = λ h. cc

  concluded_ends :
      (name : String) (r : Result (Option BridgeStatus)) (s : H.State)
      → r ≢ ok none
      → (continue r (concluded H t name) s).0 ≢ ok none
  concluded_ends name (err e) s ends = λ h. cc
  concluded_ends name (ok none) s ends = elim (ends refl) [ ]
  concluded_ends name (ok (some status)) s ends =
      settled_ends name status s (status.state == "armed")

  polled_ends :
      (fuel deadline : ℕ) (name : String) (r : Result BridgeStatus) (s : H.State)
      → deadline ≤ H.monotonic s + fuel * learn_poll_interval
      → (continue r
          (λ status. poll H fuel t deadline status >>= λ last. concluded H t name last)
          s).0
        ≢ ok none
  polled_ends fuel deadline name (err e) s enough = λ h. cc
  polled_ends fuel deadline name (ok status) s enough =
      concluded_ends name (poll H fuel t deadline status s).0 (poll H fuel t deadline status s).1
        (poll-Ends fuel deadline status s enough)

  -- Thirty rounds of polling are enough for the 30 seconds that a learn waits: with that much fuel
  -- the model of the loop never stops short, whatever the device reports. The learn has an outcome
  -- or has raised.
  pub async_await_learn_ends :
      (fuel : ℕ) (name : String) (s : H.State)
      → 30 ≤ fuel
      → (async_await_learn H fuel t name s).0 ≢ ok none
  unfolding async_await_learn
  async_await_learn_ends fuel name s enough =
      polled_ends fuel (H.monotonic s + learn_timeout) name (async_status H t s).0
        (async_status H t s).1 (omega (arith, enough, async_status-clock s))

module _ (H : Host) (t : BridgeTransport) where
  -- The status was just read, and the state is the one that the read has left.
  abbrev pub IsRead : BridgeStatus → H.State → Type 0
  IsRead status s' = (before : H.State) × (async_status H t before ≡ (ok status, s'))

  abbrev Last : (Result (Option BridgeStatus) × H.State) → Type 0
  Last ρ = (last : BridgeStatus) → ρ.0 ≡ ok (some last) → IsRead last ρ.1

  next_read :
      (fuel deadline : ℕ) (r : Result BridgeStatus) (s' : H.State)
      → ((next : BridgeStatus) → r ≡ ok next → Last (poll H fuel t deadline next s'))
      → Last (continue r (λ next. poll H fuel t deadline next) s')
  next_read fuel deadline (ok next) s' rest = rest next refl
  next_read fuel deadline (err e) s' rest = λ last h. cc

  round_read :
      (fuel deadline : ℕ) (status : BridgeStatus) (s : H.State)
      → IsRead status s
      → ((next : BridgeStatus) (s' : H.State)
          → IsRead next s'
          → Last (poll H fuel t deadline next s'))
      → (waits : Bool)
      → Last (elim waits [
        | false ↦ (ok (some status), s)
        | true ↦
            (async_status H t >>= λ next. poll H fuel t deadline next)
              (H.sleep learn_poll_interval s)
      ])
  round_read fuel deadline status s read rest false last h =
      let e : status ≡ last = cc in rw (← e) read
  round_read fuel deadline status s read rest true last h =
      let slept = H.sleep learn_poll_interval s in
      next_read fuel deadline (async_status H t slept).0 (async_status H t slept).1
        (λ next e.
          rest next (async_status H t slept).1 (slept, ap (λ r. (r, (async_status H t slept).1)) e))
        last h

  poll_read :
      (fuel deadline : ℕ) (status : BridgeStatus) (s : H.State)
      → IsRead status s
      → Last (poll H fuel t deadline status s)
  unfolding poll
  poll_read zero deadline status s read last h = ground arith
  poll_read (suc fuel) deadline status s read last h =
      round_read fuel deadline status s read (poll_read fuel deadline)
        (status.state == "armed" && ltb (H.monotonic s) deadline) last h

  abbrev pub Captured : String → LearnOutcome → BridgeStatus → Type 0
  Captured name outcome status =
      (status.state ≡ "captured")
      × ((command : CommandInfo) × (lookup name (by_name status) ≡ some command)
          × (outcome.command_id ≡ some command.command_id))

  captured-found :
      (name : String) (status : BridgeStatus) (o : Option CommandInfo)
      → (captured name status o).succeeded ≡ true
      → (status.state ≡ "captured")
        × ((command : CommandInfo) × (o ≡ some command)
            × ((captured name status o).command_id ≡ some command.command_id))
  captured-found name status none h = cc
  captured-found name status (some command) h = elim (Bool-cases (status.state == "captured")) [
    | inl e ↦ (eq_of_== status.state "captured" e, (command, refl, rw e refl))
    | inr e ↦ cc
  ]

  outcome_of-Captured :
      (name : String) (status : BridgeStatus)
      → (outcome_of name status).succeeded ≡ true
      → Captured name (outcome_of name status) status
  unfolding outcome_of
  outcome_of-Captured name status h = captured-found name status (lookup name (by_name status)) h

  answered :
      {s s' : H.State} {a b : LearnOutcome}
      → ◌≡◌ {A = Result (Option LearnOutcome) × H.State} (ok (some a), s) (ok (some b), s')
      → a ≡ b
  answered h = let p = ap (λ (ρ : Result (Option LearnOutcome) × H.State). ρ.0) h in cc

  settle-captured :
      (name : String) (status : BridgeStatus) (s s' : H.State) (outcome : LearnOutcome)
      (armed : Bool)
      → settle H t name status armed s ≡ (ok (some outcome), s')
      → outcome.succeeded ≡ true
      → (s ≡ s') × (outcome_of name status ≡ outcome)
  settle-captured name status s s' outcome true h success =
      let (_, s₁, _, k) = >>=-eq-ok (Transport.async_cancel H t) _ s h in
      let late : timed_out name ≡ outcome = answered k in cc (late, success)
  settle-captured name status s s' outcome false h success =
      (ap (λ (ρ : Result (Option LearnOutcome) × H.State). ρ.1) h, answered h)

  conclude-IsRead :
      (fuel : ℕ) (name : String) (deadline : ℕ) (first : BridgeStatus) (s₁ s₂ s' : H.State)
      (outcome : LearnOutcome) (polled : Option BridgeStatus)
      → IsRead first s₁
      → poll H fuel t deadline first s₁ ≡ (ok polled, s₂)
      → concluded H t name polled s₂ ≡ (ok (some outcome), s')
      → outcome.succeeded ≡ true
      → (status : BridgeStatus) × IsRead status s' × Captured name outcome status
  conclude-IsRead fuel name deadline first s₁ s₂ s' outcome none read loop h success =
      let p = ap (λ (ρ : Result (Option LearnOutcome) × H.State). ρ.0) h in cc
  conclude-IsRead fuel name deadline first s₁ s₂ s' outcome (some last) read loop h success =
      let (same, made) =
        settle-captured name last s₂ s' outcome (last.state == "armed") h success in
      let found : Captured name (outcome_of name last) last =
        outcome_of-Captured name last (rw made success) in
      let reread : IsRead last s₂ =
        rw (← ap (λ (ρ : Result (Option BridgeStatus) × H.State). ρ.1) loop) (
          poll_read fuel deadline first s₁ read last
            (ap (λ (ρ : Result (Option BridgeStatus) × H.State). ρ.0) loop)) in
      (last, rw (← same) reread, rw (← made) found)

  -- A learn that reports success has just read a device that says it captured, and that lists the
  -- name under the command id which the outcome gives; it has not cancelled the capture.
  pub async_await_learn-Captured :
      (fuel : ℕ) (name : String) (s s' : H.State) {outcome : LearnOutcome}
      → async_await_learn H fuel t name s ≡ (ok (some outcome), s')
      → outcome.succeeded ≡ true
      → (status : BridgeStatus) × IsRead status s' × Captured name outcome status
  unfolding async_await_learn
  async_await_learn-Captured fuel name s s' {outcome} h success =
      let (first, s₁, read, h₁) = >>=-eq-ok (async_status H t) _ s h in
      let (polled, s₂, loop, h₂) =
        >>=-eq-ok (poll H fuel t (H.monotonic s + learn_timeout) first) _ s₁ h₁ in
      conclude-IsRead fuel name (H.monotonic s + learn_timeout) first s₁ s₂ s' outcome polled
        (s, read) loop h₂ success
