-- ===== src/Reconcile/Claims.antt =====
-- The claims of learn flows, and which commands they hide.
use esphome_rf_cloner.Base.{
  ℕ, ◌+◌, ℤ, String, ◌≡◌, refl, ◌∙◌, sym, Bool, true, false, not, Option, none, some, List, [], ◌∷◌,
  ltb, keep, map, if◌then◌else◌, ◌==◌, string_eq, arith, Bool-cases, inl, inr, eq_of_==,
}
use esphome_rf_cloner.Base.Dict.{Dict, lookup, insert, erase, lookup-erase, lookup-insert}
use esphome_rf_cloner.Models.CommandInfo.{CommandInfo}
use esphome_rf_cloner.Models.BridgeStatus.{BridgeStatus}
use esphome_rf_cloner.Registry.{EntityRegistry}
use esphome_rf_cloner.Reconcile.{
  CommandReconciler, reservation_time, async_is_reserved, visible_from, async_visible_commands,
  async_reserve, claim_of, unusable,
}

-- The claim on `name` has not lapsed at `now`.
abbrev lives : ℕ → Option ℕ → Bool
lives now none = false
lives now (some lapses_at) = ltb now lapses_at

abbrev pub holds : ℕ → Dict String ℕ → String → Bool
holds now reserved name = lives now (lookup name reserved)

claim_of-lives :
    (now : ℕ) (name : String) (reserved : Dict String ℕ) (o : Option ℕ)
    → (claim_of now name reserved o).0 ≡ lives now o
claim_of-lives now name reserved none = refl
claim_of-lives now name reserved (some lapses_at) = ground arith

erased_lives :
    (now : ℕ) (name other : String) (reserved : Dict String ℕ)
    → lives now (lookup name reserved) ≡ false
    → holds now (erase name reserved) other ≡ holds now reserved other
erased_lives now name other reserved h =
    rw (lookup-erase other name reserved) (elim (Bool-cases (other == name)) [
      | inl e ↦ rw (e, eq_of_== other name e) (sym h)
      | inr e ↦ rw e refl
    ])

dropped_lives :
    (now lapses_at : ℕ) (name other : String) (reserved : Dict String ℕ) (alive : Bool)
    → lookup name reserved ≡ some lapses_at
    → ltb now lapses_at ≡ alive
    → holds now
        (elim alive as (λ _. Bool × Dict String ℕ) [
          | true ↦ (true, reserved)
          | false ↦ (false, erase name reserved)
        ]).1
        other
      ≡ holds now reserved other
dropped_lives now lapses_at name other reserved true found e = refl
dropped_lives now lapses_at name other reserved false found e =
    erased_lives now name other reserved (rw found e)

claim_of-keeps :
    (now : ℕ) (name other : String) (reserved : Dict String ℕ) (o : Option ℕ)
    → lookup name reserved ≡ o
    → holds now (claim_of now name reserved o).1 other ≡ holds now reserved other
claim_of-keeps now name other reserved none h = refl
claim_of-keeps now name other reserved (some lapses_at) h =
    dropped_lives now lapses_at name other reserved (ltb now lapses_at) h refl

-- Asking drops nothing but claims that have lapsed.
async_is_reserved-keeps :
    (now : ℕ) (name other : String) (reserved : Dict String ℕ)
    → holds now (async_is_reserved now name reserved).1 other ≡ holds now reserved other
unfolding async_is_reserved
async_is_reserved-keeps now name other reserved =
    claim_of-keeps now name other reserved (lookup name reserved) refl

async_is_reserved-holds :
    (now : ℕ) (name : String) (reserved : Dict String ℕ)
    → (async_is_reserved now name reserved).0 ≡ holds now reserved name
unfolding async_is_reserved
async_is_reserved-holds now name reserved = claim_of-lives now name reserved (lookup name reserved)

abbrev pub unheld : ℕ → Dict String ℕ → List CommandInfo → List ℤ
unheld now reserved cs =
    map (λ (c : CommandInfo). c.command_id)
      (keep (λ (c : CommandInfo). not (holds now reserved c.name)) cs)

unheld_as :
    (now : ℕ) (a : Dict String ℕ) (held : String → Bool) (cs : List CommandInfo)
    → ((name : String) → holds now a name ≡ held name)
    → unheld now a cs
      ≡ map (λ (c : CommandInfo). c.command_id) (keep (λ (c : CommandInfo). not (held c.name)) cs)
unheld_as now a held [] h = refl
unheld_as now a held (c ∷ cs) h = rw (h c.name) (ground (arith, unheld_as now a held cs h))

unheld_same :
    (now : ℕ) (a b : Dict String ℕ) (cs : List CommandInfo)
    → ((name : String) → holds now a name ≡ holds now b name)
    → unheld now a cs ≡ unheld now b cs
unheld_same now a b cs h = unheld_as now a (holds now b) cs h

visible_from-unheld :
    (now : ℕ) (cs : List CommandInfo) (reserved : Dict String ℕ)
    → (visible_from now cs reserved).0 ≡ unheld now reserved cs
unfolding visible_from
visible_from-unheld now [] reserved = refl
visible_from-unheld now (c ∷ cs) reserved =
    let left = (async_is_reserved now c.name reserved).1 in
    let rest : (visible_from now cs left).0 ≡ unheld now reserved cs =
      visible_from-unheld now cs left
      ∙ unheld_same now left reserved cs λ name. async_is_reserved-keeps now c.name name reserved in
    rw (rest, async_is_reserved-holds now c.name reserved) (ground arith)

visible_from-keeps :
    (now : ℕ) (cs : List CommandInfo) (reserved : Dict String ℕ) (name : String)
    → holds now (visible_from now cs reserved).1 name ≡ holds now reserved name
unfolding visible_from
visible_from-keeps now [] reserved name = refl
visible_from-keeps now (c ∷ cs) reserved name =
    visible_from-keeps now cs (async_is_reserved now c.name reserved).1 name
    ∙ async_is_reserved-keeps now c.name name reserved

module _ (R : EntityRegistry) (now : ℕ) (status : BridgeStatus) (m : CommandReconciler R) where
  seen :
      (hidden : Bool)
      → (visible_from now status.commands m.reserved).0 ≡ unheld now m.reserved status.commands
      → ((name : String)
          → holds now (visible_from now status.commands m.reserved).1 name
            ≡ holds now m.reserved name)
      → let ρ : List ℤ × CommandReconciler R = if hidden then ([], m) else (
        (visible_from now status.commands m.reserved).0,
        record m { reserved = (visible_from now status.commands m.reserved).1 },
      ) in
        (ρ.0 ≡ (if hidden then [] else unheld now m.reserved status.commands))
        × ((name : String) → holds now ρ.1.reserved name ≡ holds now m.reserved name)
  seen true ids kept = (refl, λ name. refl)
  seen false ids kept = (ids, kept)

  -- The platforms are shown the listed commands that no live claim holds, in the listing's order,
  -- and nothing at all while the listing cannot be trusted. Looking changes no live claim.
  pub async_visible_commands-unheld :
      ((async_visible_commands R now (some status) m).0
        ≡ (if unusable R m status then [] else unheld now m.reserved status.commands))
      × ((name : String)
          → holds now (async_visible_commands R now (some status) m).1.reserved name
            ≡ holds now m.reserved name)
  unfolding async_visible_commands
  async_visible_commands-unheld =
      seen (unusable R m status) (visible_from-unheld now status.commands m.reserved)
        (visible_from-keeps now status.commands m.reserved)

  holds-insert :
      (at : ℕ) (name other : String)
      → holds now (insert name (at + reservation_time) m.reserved) other
        ≡ (if other == name then ltb now (at + reservation_time) else holds now m.reserved other)
  holds-insert at name other =
      rw (lookup-insert other name (at + reservation_time) m.reserved)
        (elim (Bool-cases (other == name)) [ inl e ↦ rw e refl | inr e ↦ rw e refl ])

  -- A claim made at one time hides the commands of its name for a minute and no longer, and neither
  -- hides nor shows any other command.
  pub async_visible_commands-async_reserve :
      (at : ℕ) (name : String)
      → unusable R m status ≡ false
      → (async_visible_commands R now (some status) (async_reserve R at name m)).0
        ≡ map
            (λ (c : CommandInfo). c.command_id)
            (keep
              (λ (c : CommandInfo). not (
                if c.name == name
                then ltb now (at + reservation_time)
                else holds now m.reserved c.name))
              status.commands)
  unfolding async_visible_commands async_reserve
  async_visible_commands-async_reserve at name usable = rw usable (
      visible_from-unheld now status.commands (insert name (at + reservation_time) m.reserved)
      ∙ unheld_as now (insert name (at + reservation_time) m.reserved) _ status.commands
          (holds-insert at name))
