-- ===== src/Flow/Named.antt =====
-- The targets that the subentry flow creates and changes.
use esphome_rf_cloner.Base.{
  String, ◌≡◌, ◌≢◌, refl, sym, ap, ◌∙◌, Bool, true, false, Option, none, some, List, [], ◌∷◌, any,
  All, contains, if◌then◌else◌, ◌==◌, string_eq, arith,
}
use esphome_rf_cloner.Base.Dict.{Dict, lookup, values}
use esphome_rf_cloner.Python.Result.{Result, ok, err}
use esphome_rf_cloner.Python.Text.{is_empty}
use esphome_rf_cloner.Python.Value.{Value, str}
use esphome_rf_cloner.Const.{
  conf_name, conf_target_type, conf_area_id, subentry_type_target, target_types,
  target_type_generic,
}
use esphome_rf_cloner.Entry.{ConfigSubentry}
use esphome_rf_cloner.Host.{Host}
use esphome_rf_cloner.Registry.{EntityRegistry}
use esphome_rf_cloner.Devices.{DeviceRegistry}
use esphome_rf_cloner.Targets.{
  RfTarget, from_subentry, targets, validate_target_type, nonempty_text,
}
use esphome_rf_cloner.Runtime.{World, entry_of}
use esphome_rf_cloner.Flow.{FlowResult, creates_entry, Strings, stripped}
use esphome_rf_cloner.Flow.Target.{
  target_data, problem_with, is_taken, created, submitted, async_step_user, chosen_area,
  text_or_null,
}

module _ (S : Strings) where
  -- No target of the list has this name, but for case.
  abbrev pub Unlike : String → RfTarget → Type 0
  Unlike name t = S.casefold t.name ≢ S.casefold name

  any-Unlike :
      (name : String) (known : List RfTarget)
      → any (λ (t : RfTarget). S.casefold t.name == S.casefold name) known ≡ false
      → All (Unlike name) known
  any-Unlike name [] free = tt
  any-Unlike name (t ∷ known) free =
      let differs : (S.casefold t.name == S.casefold name) ≡ false = ground arith in
      ((λ same. ground arith), any-Unlike name known (ground arith))

-- A type that was checked is a type.
validate_if_idem :
    (s : String) (known : Bool)
    → contains target_types s ≡ known
    → validate_target_type (some (str (if known then s else target_type_generic)))
      ≡ (if known then s else target_type_generic)
unfolding validate_target_type string_eq
validate_if_idem s true h = rw h refl
validate_if_idem s false h = refl

validate_target_type_idem :
    (v : Option Value)
    → validate_target_type (some (str (validate_target_type v))) ≡ validate_target_type v
unfolding validate_target_type string_eq
validate_target_type_idem (some (str s)) = validate_if_idem s (contains target_types s) refl
validate_target_type_idem _ = refl

-- The target that a subentry with the data of a new one is.
from_subentry-target_data :
    (fresh : String) (fields : Dict String Value) (subentry : ConfigSubentry)
    → subentry.content ≡ target_data fresh fields
    → subentry.subentry_type ≡ subentry_type_target
    → is_empty fresh ≡ false
    → (target : RfTarget) × (from_subentry subentry ≡ some target)
      × (target.target_id ≡ fresh)
      × (target.name ≡ subentry.title)
      × (target.target_type ≡ validate_target_type (lookup conf_target_type fields))
unfolding from_subentry lookup string_eq nonempty_text
from_subentry-target_data fresh fields subentry content kind nonempty =
    let stored = validate_target_type (lookup conf_target_type fields) in
    (
      record {
        target_id = fresh;
        subentry_id = subentry.subentry_id;
        name = subentry.title;
        target_type = validate_target_type (some (str stored));
        area_id = nonempty_text (some (text_or_null (chosen_area (lookup conf_area_id fields))));
      },
      rw (kind, content, nonempty) refl,
      refl,
      refl,
      validate_target_type_idem (lookup conf_target_type fields),
    )

module _ (H : Host) (R : EntityRegistry) (D : DeviceRegistry) (S : Strings) where
  problem_with-none :
      (name : String) (clash : Bool)
      → problem_with H R D S name clash ≡ none
      → (is_empty name ≡ false) × (clash ≡ false)
  problem_with-none name clash h = ground arith

  -- What was created was given a name of its own, and the data of a new target.
  abbrev New : String → Dict String Value → World H R D → String → Dict String Value → Type 0
  New fresh fields w title content =
      (stripped H fields conf_name ≡ ok title)
      × (is_empty title ≡ false)
      × All (Unlike S title) (values (targets (entry_of w)))
      × (content ≡ target_data fresh fields)

  -- The data that a creation carries.
  abbrev carried : FlowResult → Dict String Value
  carried (creates_entry title content uid) = content
  carried _ = []

  created-New :
      (problem : Option String) (fresh : String) (fields : Dict String Value) (name : String)
      (w : World H R D) {title : String} {content : Dict String Value} {uid : Option String}
      → stripped H fields conf_name ≡ ok name
      → problem_with H R D S name (is_taken H R D S name (values (targets (entry_of w)))) ≡ problem
      → created H R D S fresh fields name problem w ≡ creates_entry title content uid
      → New fresh fields w title content
  unfolding is_taken
  created-New (some problem) fresh fields name w given free made = absurd (ground arith)
  created-New none fresh fields name w {title} {content} given free made =
      let clash = is_taken H R D S name (values (targets (entry_of w))) in
      let (named, alone) = problem_with-none name clash free in
      let same : name ≡ title = ground arith in
      (
        given ∙ ap (λ n. ok n) same,
        rw (← same) named,
        rw (← same) (any-Unlike S name (values (targets (entry_of w))) alone),
        sym (ap carried made),
      )

  submitted-New :
      (r : Result String) (fresh : String) (fields : Dict String Value) (w : World H R D)
      {title : String} {content : Dict String Value} {uid : Option String}
      → stripped H fields conf_name ≡ r
      → (submitted H R D S fresh fields r w).0 ≡ ok (creates_entry title content uid)
      → New fresh fields w title content
  submitted-New (err e) fresh fields w given made = absurd (ground arith)
  submitted-New (ok name) fresh fields w {title} {content} {uid} given made =
      let problem =
        problem_with H R D S name (is_taken H R D S name (values (targets (entry_of w)))) in
      created-New problem fresh fields name w {title = title} {content = content} {uid = uid} given
        refl (ground arith)

  -- A target that the flow creates has the submitted name, which is not empty and which no other
  -- target of the bridge has but for case. Read back from the subentry that is made of it, it is a
  -- target with the fresh id, which must not be empty, that name, and a type that this version
  -- knows.
  pub async_step_user-creates :
      (fresh : String) (fields : Dict String Value) (w : World H R D) (subentry : ConfigSubentry)
      {uid : Option String}
      → (async_step_user H R D S fresh (some fields) w).0
        ≡ ok (creates_entry subentry.title subentry.content uid)
      → subentry.subentry_type ≡ subentry_type_target
      → is_empty fresh ≡ false
      → (target : RfTarget) × (from_subentry subentry ≡ some target)
        × (target.target_id ≡ fresh)
        × (stripped H fields conf_name ≡ ok target.name)
        × (is_empty target.name ≡ false)
        × All (Unlike S target.name) (values (targets (entry_of w)))
        × (target.target_type ≡ validate_target_type (lookup conf_target_type fields))
  unfolding async_step_user
  async_step_user-creates fresh fields w subentry made kind nonempty =
      let (given, named, alone, content) =
        submitted-New (stripped H fields conf_name) fresh fields w refl made in
      let (target, read, id, name, type) =
        from_subentry-target_data fresh fields subentry content kind nonempty in
      (target, read, id, rw name given, rw name named, rw name alone, type)
