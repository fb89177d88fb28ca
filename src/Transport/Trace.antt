-- ===== src/Transport/Trace.antt =====
-- Which actions a piece of code calls, and in which order, on a host that records them.
use Prim.Native.String
use mathlib.Core.List.{append_assoc, append-nil}
use esphome_rf_cloner.Base.{
  String, ◌≡◌, refl, Bool, true, false, Option, none, some, List, [], ◌∷◌, ◌++◌, map, sym, ◌∙◌, ap,
  ℤ, pos, ◌&&◌, leb_ℤ,
}
use esphome_rf_cloner.Base.Dict.{Dict}
use esphome_rf_cloner.Python.Result.{
  Result, ok, err, Exception, home_assistant_error, outside_domain,
}
use esphome_rf_cloner.Python.Exec.{Exec, lift, raise, continue, ◌>>=◌, for_each}
use esphome_rf_cloner.Python.Text.{replace}
use esphome_rf_cloner.Python.Value.{Value, int}
use esphome_rf_cloner.Const.{esphome_domain, revision_max}
use esphome_rf_cloner.Host.{Host}
use esphome_rf_cloner.Host.Recorded.{Call, recorded}
use esphome_rf_cloner.Models.BridgeStatus
use esphome_rf_cloner.Transport.{
  BridgeTransport, answer, unavailable, asserted, call, run, async_status, async_restore_commit,
  call_service, service_of, node_name, service_name,
}

-- An action of the bridge and its data.
abbrev pub Act : Type 0
Act = String × Dict String Value

module _ (t : BridgeTransport) where
  -- The call is of this action, with the service name of some ESPHome node and the transport's
  -- prefix.
  abbrev pub IsCallOf : Act → Call → Type 0
  IsCallOf (action, argument) c =
      (c.domain ≡ esphome_domain)
      × (c.argument ≡ argument)
      × ((node : String) × (c.service
            ≡ String.◌++◌ (replace b'-' "_" node)
                (String.◌++◌ "_" (String.◌++◌ t.action_prefix action))))

  -- The calls are those of the plan, one for each action and in its order.
  abbrev pub Made : List Act → List Call → Type 0
  Made [] [] = Unit
  Made (a ∷ plan) (c ∷ cs) = IsCallOf a c × Made plan cs
  Made _ _ = ⊥

  -- The calls are those of a beginning of the plan.
  abbrev pub Begun : List Act → List Call → Type 0
  Begun plan [] = Unit
  Begun (a ∷ plan) (c ∷ cs) = IsCallOf a c × Begun plan cs
  Begun [] (c ∷ cs) = ⊥

  -- Code that returns has made all the calls of its plan, and code that raises a beginning of them.
  abbrev pub MadeBy {ℓ} : {A : Type ℓ} → Result A → List Act → List Call → Type 0
  MadeBy (ok a) plan cs = Made plan cs
  MadeBy (err e) plan cs = Begun plan cs

  Made-append :
      (p q : List Act) (cs ds : List Call) → Made p cs → Made q ds → Made (p ++ q) (cs ++ ds)
  Made-append [] q [] ds m n = n
  Made-append (a ∷ p) q (c ∷ cs) ds m n = (m.0, Made-append p q cs ds m.1 n)
  Made-append [] q (c ∷ cs) ds m n = elim m [ ]
  Made-append (a ∷ p) q [] ds m n = elim m [ ]

  Begun-append :
      (p q : List Act) (cs ds : List Call) → Made p cs → Begun q ds → Begun (p ++ q) (cs ++ ds)
  Begun-append [] q [] ds m n = n
  Begun-append (a ∷ p) q (c ∷ cs) ds m n = (m.0, Begun-append p q cs ds m.1 n)
  Begun-append [] q (c ∷ cs) ds m n = elim m [ ]
  Begun-append (a ∷ p) q [] ds m n = elim m [ ]

  Begun-longer : (p q : List Act) (cs : List Call) → Begun p cs → Begun (p ++ q) cs
  Begun-longer p q [] b = tt
  Begun-longer (a ∷ p) q (c ∷ cs) b = (b.0, Begun-longer p q cs b.1)
  Begun-longer [] q (c ∷ cs) b = elim b [ ]

  module _ (H : Host) where
    abbrev pub Log : Type 0
    Log = H.State × List Call

    -- What a run that began with `log` has left.
    abbrev pub Left {ℓ} : {A : Type ℓ} → List Act → List Call → Result A × Log → Type 0
    Left plan log (r, (s, log')) = (cs : List Call) × (log' ≡ log ++ cs) × MadeBy r plan cs

    pub record Traced {ℓ} {A : Type ℓ} (m : Exec Log A) (plan : List Act) : Type ℓ where
      pub at : (σ : Log) → Left plan σ.1 (m σ)

    pub Traced-lift {ℓ} : {A : Type ℓ} (r : Result A) → Traced (lift r) []
    Traced-lift (ok a) = record { at = λ σ. ([], sym (append-nil σ.1), tt) }
    Traced-lift (err e) = record { at = λ σ. ([], sym (append-nil σ.1), tt) }

    Left-after {ℓ} :
        {B : Type ℓ} (p q : List Act) (log : List Call) (σ : Log) (cs : List Call)
        (ρ : Result B × Log)
        → σ.1 ≡ log ++ cs
        → Made p cs
        → Left q σ.1 ρ
        → Left (p ++ q) log ρ
    Left-after p q log σ cs (ok b, (s, l)) e m (ds, e', n) =
        (cs ++ ds, e' ∙ ap (λ z. z ++ ds) e ∙ append_assoc log cs ds, Made-append p q cs ds m n)
    Left-after p q log σ cs (err x, (s, l)) e m (ds, e', n) =
        (cs ++ ds, e' ∙ ap (λ z. z ++ ds) e ∙ append_assoc log cs ds, Begun-append p q cs ds m n)

    MadeBy-one {ℓ} :
        {A : Type ℓ} (r : Result A) (a : Act) (c : Call) → IsCallOf a c → MadeBy r (a ∷ []) (c ∷ [])
    MadeBy-one (ok b) a c h = (h, tt)
    MadeBy-one (err x) a c h = (h, tt)

    Left-continue {ℓ κ} :
        {A : Type ℓ} {B : Type κ} (p q : List Act) (log : List Call) (r : Result A) (σ : Log)
        (f : A → Exec Log B)
        → Left p log (r, σ)
        → ((a : A) → Traced (f a) q)
        → Left (p ++ q) log (continue r f σ)
    Left-continue p q log (ok a) σ f (cs, e, m) kf =
        Left-after p q log σ cs (f a σ) e m ((kf a).at σ)
    Left-continue p q log (err x) σ f (cs, e, b) kf = (cs, e, Begun-longer p q cs b)

    pub Traced-bind {ℓ κ} :
        {A : Type ℓ} {B : Type κ} (m : Exec Log A) (f : A → Exec Log B) (p q : List Act)
        → Traced m p
        → ((a : A) → Traced (f a) q)
        → Traced (m >>= f) (p ++ q)
    Traced-bind m f p q km kf = record {
      at = λ σ. let (r, σ') = m σ in Left-continue p q σ.1 r σ' f (km.at σ) kf;
    }

    pub Traced-for_each {ℓ} :
        {A : Type ℓ} (f : A → Exec Log (Unit {0})) (act : A → Act) (xs : List A)
        → ((a : A) → Traced (f a) (act a ∷ []))
        → Traced (for_each f xs) (map act xs)
    unfolding for_each
    Traced-for_each f act [] kf = Traced-lift (ok tt)
    Traced-for_each f act (x ∷ xs) kf =
        Traced-bind (f x) (λ _. for_each f xs) (act x ∷ []) (map act xs) (kf x)
          (λ _. Traced-for_each f act xs kf)

    Left-call_service :
        (o : Option String) (action : String) (argument : Dict String Value) (response : Bool)
        (σ : Log)
        → Left
            ((action, argument) ∷ [])
            σ.1
            (call_service (recorded H) (service_of (recorded H) t action o) argument response σ)
    Left-call_service none action argument response σ = ([], sym (append-nil σ.1), tt)
    Left-call_service (some node) action argument response σ = (
      _ ∷ [],
      refl,
      MadeBy-one
          (answer response (unavailable (H.async_call esphome_domain _ argument response σ.0).0))
          (action, argument) _ (refl, refl, (node, refl)),
    )

    -- One `_call` makes the one call of its action, or raises.
    pub Traced-call :
        (action : String) (argument : Dict String Value) (response : Bool)
        → Traced (call (recorded H) t action argument response) ((action, argument) ∷ [])
    unfolding call service_name
    Traced-call action argument response = record {
      at = λ σ. Left-call_service (node_name (recorded H) t σ) action argument response σ;
    }

    -- A raise calls nothing, which is a beginning of any plan.
    pub Traced-raise {ℓ} :
        {A : Type ℓ} (e : Exception) (plan : List Act) → Traced (raise {A = A} e) plan
    Traced-raise e plan = record { at = λ σ. ([], sym (append-nil σ.1), tt) }

    -- A mutation, whose answer is not looked at.
    pub Traced-run :
        (action : String) (argument : Dict String Value)
        → Traced (run (recorded H) t action argument) ((action, argument) ∷ [])
    Traced-run action argument =
        Traced-bind (call (recorded H) t action argument false) (λ _. lift (ok tt))
          ((action, argument) ∷ []) [] (Traced-call action argument false)
          (λ _. Traced-lift (ok tt))

    pub Traced-async_status : Traced (async_status (recorded H) t) (("status", []) ∷ [])
    unfolding async_status
    Traced-async_status =
        Traced-bind (call (recorded H) t "status" [] true)
          (λ answered.
            lift (asserted answered) >>= λ payload. lift (BridgeStatus.from_payload H.repr payload))
          (("status", []) ∷ []) [] (Traced-call "status" [] true)
          λ answered.
            Traced-bind (lift (asserted answered))
              (λ payload. lift (BridgeStatus.from_payload H.repr payload)) [] []
              (Traced-lift (asserted answered))
              λ payload. Traced-lift (BridgeStatus.from_payload H.repr payload)

    if_in_domain :
        (b : Bool) (m : Exec Log (Unit {0})) (e : Exception) (plan : List Act)
        → Traced m plan
        → Traced {A = Unit {0}} (elim b [ true ↦ m | false ↦ raise e ]) plan
    if_in_domain true m e plan h = h
    if_in_domain false m e plan h = Traced-raise e plan

    pub Traced-async_restore_commit :
        (r : ℤ)
        → Traced
            (async_restore_commit (recorded H) t r)
            (("restore_commit", ("source_revision", int r) ∷ []) ∷ [])
    unfolding async_restore_commit
    Traced-async_restore_commit r =
        let act : Act = ("restore_commit", ("source_revision", int r) ∷ []) in
        if_in_domain (leb_ℤ (pos 0) r && leb_ℤ r (pos revision_max))
          (run (recorded H) t act.0 act.1) (home_assistant_error outside_domain) (act ∷ [])
          (Traced-run act.0 act.1)
