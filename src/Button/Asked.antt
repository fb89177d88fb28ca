-- ===== src/Button/Asked.antt =====
-- button.py: which buttons a pass leaves, and what it asks Home Assistant for.
use mathlib.Core.List.{
  Mem, mem-append_left, mem-append_right, mem-cons_self, append_assoc, append-nil,
}
use esphome_rf_cloner.Base.{
  ℤ, String, ◌≡◌, refl, ap, ◌∙◌, sym, Bool, true, false, not, ◌&&◌, ◌||◌, Option, none, some, List,
  [], ◌∷◌, ◌++◌, map, if◌then◌else◌, ◌==◌, contains, int_eq, arith, eq_of_==, ==_self,
  option_string_eq, Bool-cases, inl, inr,
}
use esphome_rf_cloner.Base.Dict.{Dict, lookup, erase, lookup-insert, lookup-erase}
use esphome_rf_cloner.Entry.{ConfigEntry}
use esphome_rf_cloner.Models.CommandInfo.{CommandInfo}
use esphome_rf_cloner.Models.BridgeStatus.{BridgeStatus}
use esphome_rf_cloner.Targets.{assigned_target, command_icon}
use esphome_rf_cloner.Button.{
  CommandButton, Deed, removed, added, Platform, new_button, placement, stays, set_icons, iconed,
  remove_each, add_each, add_button, command_of, removal,
}
use esphome_rf_cloner.Button.Placed.{AllListed, listed_head, listed_tail}

nested :
    {A : Type 0} (a b : Bool) (o : Option A)
    → (if a then none else (if b then none else o)) ≡ (if b || a then none else o)
nested a b o = ground arith

-- What a pass makes of one button.
pub button_at :
    (has stay wanted : Bool) (new kept old : Option CommandButton)
    → (stay ≡ true → has ≡ true)
    → (has ≡ false → old ≡ none)
    → (if (has && not stay && wanted) || not has && wanted
        then new
        else (if (not wanted && has) || (has && not stay && wanted)
            then none
            else (if wanted && stay then kept else old)))
      ≡ (if wanted then (if stay then kept else new) else none)
button_at has stay wanted new kept old placed absent = ground arith

pub comes_at :
    (has stay wanted : Bool)
    → (stay ≡ true → has ≡ true)
    → ((has && not stay && wanted) || not has && wanted) ≡ (wanted && not stay)
comes_at has stay wanted placed = ground arith

pub goes_at :
    (has stay wanted : Bool)
    → ((not wanted && has) || (has && not stay && wanted)) ≡ (has && not (wanted && stay))
goes_at has stay wanted = ground arith

module _ (bridge_id : String) (entry : ConfigEntry) (status : Option BridgeStatus) where
  -- The deeds that remove the buttons of these ids.
  pub removals : List ℤ → Dict ℤ CommandButton → List Deed
  removals [] entities = []
  removals (k ∷ ks) entities =
      removal bridge_id entry status k (lookup k entities) ++ removals ks (erase k entities)

  mem-removal :
      (j k : ℤ) (o : Option CommandButton) {b : CommandButton}
      → k ≡ j
      → o ≡ some b
      → Mem (removed k) (removal bridge_id entry status j o)
  mem-removal j k none same h = absurd (ground arith)
  mem-removal j k (some b) same h = rw same mem-cons_self

  pub mem-removals :
      (ks : List ℤ) (k : ℤ) (entities : Dict ℤ CommandButton) {b : CommandButton}
      → contains ks k ≡ true
      → lookup k entities ≡ some b
      → Mem (removed k) (removals ks entities)
  unfolding removals
  mem-removals [] k entities listed held = absurd (ground arith)
  mem-removals (j ∷ ks) k entities {b} listed held = elim (Bool-cases (k == j)) [
    | inl e ↦
        let same = eq_of_== k j e in
        mem-append_left (removals ks (erase j entities)) (
          mem-removal j k (lookup j entities) {b = b} same
            (ap (λ i. lookup i entities) (sym same) ∙ held))
    | inr e ↦ mem-append_right (removal bridge_id entry status j (lookup j entities)) (
        mem-removals ks k (erase j entities) {b = b} (ground arith)
          (lookup-erase k j entities ∙ rw e held))
  ]

  pub deeds-remove_each :
      (ks : List ℤ) (p : Platform)
      → (remove_each bridge_id entry status ks p).deeds ≡ p.deeds ++ removals ks p.entities
  unfolding remove_each removals
  deeds-remove_each [] p = sym (append-nil p.deeds)
  deeds-remove_each (k ∷ ks) p =
      deeds-remove_each ks _
      ∙ append_assoc p.deeds (removal bridge_id entry status k (lookup k p.entities)) _

  -- The deed that adds the command's button.
  abbrev pub addition : ℤ → Deed
  addition k = added k (placement entry k)

  added_deeds :
      (j : ℤ) (o : Option CommandInfo) (p : Platform) {c : CommandInfo}
      → o ≡ some c
      → (add_button bridge_id entry status j o p).deeds ≡ p.deeds ++ addition j ∷ []
  added_deeds j none p h = cc
  added_deeds j (some command) p h = refl

  pub deeds-add_each :
      (ks : List ℤ) (p : Platform)
      → AllListed bridge_id entry status ks
      → (add_each bridge_id entry status ks p).deeds ≡ p.deeds ++ map addition ks
  unfolding add_each
  deeds-add_each [] p listed = sym (append-nil p.deeds)
  deeds-add_each (j ∷ ks) p listed =
      let (c, found) = listed_head bridge_id entry status j ks listed in
      deeds-add_each ks _ (listed_tail bridge_id entry status j ks listed)
      ∙ ap (λ deeds. deeds ++ map addition ks)
          (added_deeds j (command_of bridge_id entry status j) p found)
      ∙ append_assoc p.deeds (addition j ∷ []) (map addition ks)

  -- A button with the icon that its command has now.
  abbrev pub with_icon : ℤ → Option CommandButton → Option CommandButton
  with_icon k none = none
  with_icon k (some button) = some (record button { icon = command_icon entry k })

  -- The button that a listed command gets.
  abbrev pub button_of : ℤ → Option CommandInfo → Option CommandButton
  button_of k none = none
  button_of k (some command) =
      some (new_button bridge_id k command.name (assigned_target entry k) (command_icon entry k))

  pub lookup-remove_each_entities :
      (ks : List ℤ) (p : Platform) (k : ℤ)
      → lookup k (remove_each bridge_id entry status ks p).entities
        ≡ (if contains ks k then none else lookup k p.entities)
  unfolding remove_each
  lookup-remove_each_entities [] p k = refl
  lookup-remove_each_entities (j ∷ ks) p k =
      lookup-remove_each_entities ks _ k
      ∙ rw (lookup-erase k j p.entities) (nested (contains ks k) (k == j) (lookup k p.entities))

  added_entities :
      (j k : ℤ) (o : Option CommandInfo) (p : Platform) {c : CommandInfo}
      → o ≡ some c
      → lookup k (add_button bridge_id entry status j o p).entities
        ≡ (if k == j then button_of j o else lookup k p.entities)
  added_entities j k none p h = cc
  added_entities j k (some command) p h =
      lookup-insert k j
        (new_button bridge_id j command.name (assigned_target entry j) (command_icon entry j))
        p.entities

  nested_button :
      (j k : ℤ) (a : Bool) (o : Option CommandButton)
      → (if a
          then button_of k (command_of bridge_id entry status k)
          else (if k == j then button_of j (command_of bridge_id entry status j) else o))
        ≡ (if k == j || a then button_of k (command_of bridge_id entry status k) else o)
  nested_button j k a o =
      let same : (k == j) ≡ true
          → button_of k (command_of bridge_id entry status k)
            ≡ button_of j (command_of bridge_id entry status j) =
        λ h. ap (λ i. button_of i (command_of bridge_id entry status i)) (eq_of_== k j h) in
      ground (arith, same)

  pub lookup-add_each_entities :
      (ks : List ℤ) (p : Platform) (k : ℤ)
      → AllListed bridge_id entry status ks
      → lookup k (add_each bridge_id entry status ks p).entities ≡ (
          if contains ks k
          then button_of k (command_of bridge_id entry status k)
          else lookup k p.entities)
  unfolding add_each
  lookup-add_each_entities [] p k listed = refl
  lookup-add_each_entities (j ∷ ks) p k listed =
      let (c, found) = listed_head bridge_id entry status j ks listed in
      lookup-add_each_entities ks _ k (listed_tail bridge_id entry status j ks listed)
      ∙ rw (added_entities j k (command_of bridge_id entry status j) p found)
          (nested_button j k (contains ks k) (lookup k p.entities))

  iconed_self :
      (k : ℤ) (o : Option CommandButton) (entities : Dict ℤ CommandButton)
      → lookup k entities ≡ o
      → lookup k (iconed bridge_id entry status k o entities) ≡ with_icon k o
  iconed_self k none entities h = h
  iconed_self k (some button) entities h =
      lookup-insert k k (record button { icon = command_icon entry k }) entities
      ∙ rw (==_self k) refl

  iconed_other :
      (j k : ℤ) (o : Option CommandButton) (entities : Dict ℤ CommandButton)
      → (k == j) ≡ false
      → lookup k (iconed bridge_id entry status j o entities) ≡ lookup k entities
  iconed_other j k none entities h = refl
  iconed_other j k (some button) entities h =
      lookup-insert k j (record button { icon = command_icon entry j }) entities ∙ rw h refl

  lookup-iconed :
      (j k : ℤ) (entities : Dict ℤ CommandButton)
      → lookup k (iconed bridge_id entry status j (lookup j entities) entities)
        ≡ (if k == j then with_icon k (lookup k entities) else lookup k entities)
  lookup-iconed j k entities = elim (Bool-cases (k == j)) [
    | inl e ↦
        ap (λ i. lookup k (iconed bridge_id entry status i (lookup i entities) entities))
          (sym (eq_of_== k j e))
        ∙ iconed_self k (lookup k entities) entities refl
        ∙ rw e refl
    | inr e ↦ iconed_other j k (lookup j entities) entities e ∙ rw e refl
  ]

  iconed_if :
      (placed : Dict ℤ (Option String)) (j k : ℤ) (entities : Dict ℤ CommandButton) (stay : Bool)
      → stays bridge_id entry status placed j ≡ stay
      → lookup k
          (if stay then iconed bridge_id entry status j (lookup j entities) entities else entities)
        ≡ (if k == j && stays bridge_id entry status placed k
            then with_icon k (lookup k entities)
            else lookup k entities)
  iconed_if placed j k entities true h =
      let same : (k == j) ≡ true → stays bridge_id entry status placed k ≡ true =
        λ e. ap (stays bridge_id entry status placed) (eq_of_== k j e) ∙ h in
      lookup-iconed j k entities ∙ ground (arith, same)
  iconed_if placed j k entities false h =
      let same : (k == j) ≡ true → stays bridge_id entry status placed k ≡ false =
        λ e. ap (stays bridge_id entry status placed) (eq_of_== k j e) ∙ h in
      ground (arith, same)

  icons_at :
      (k : ℤ) (same later stay : Bool) (o : Option CommandButton)
      → (if later && stay
          then with_icon k (if same && stay then with_icon k o else o)
          else (if same && stay then with_icon k o else o))
        ≡ (if (same || later) && stay then with_icon k o else o)
  icons_at k true true true none = refl
  icons_at k true true true (some button) = refl
  icons_at k true false true o = refl
  icons_at k false later true o = ground arith
  icons_at k same later false o = ground arith

  pub lookup-set_icons :
      (placed : Dict ℤ (Option String)) (ks : List ℤ) (entities : Dict ℤ CommandButton) (k : ℤ)
      → lookup k (set_icons bridge_id entry status placed ks entities) ≡ (
          if contains ks k && stays bridge_id entry status placed k
          then with_icon k (lookup k entities)
          else lookup k entities)
  unfolding set_icons
  lookup-set_icons placed [] entities k = refl
  lookup-set_icons placed (j ∷ ks) entities k =
      lookup-set_icons placed ks _ k
      ∙ rw (iconed_if placed j k entities (stays bridge_id entry status placed j) refl) (
          icons_at k (k == j) (contains ks k) (stays bridge_id entry status placed k)
            (lookup k entities))
