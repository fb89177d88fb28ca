-- ===== src/Button/Placed.antt =====
-- Where a pass leaves the buttons.
use esphome_rf_cloner.Base.{
  ℤ, String, ◌≡◌, refl, ap, ◌∙◌, sym, Bool, true, false, not, ◌&&◌, ◌||◌, Option, none, some, List,
  [], ◌∷◌, ◌++◌, keep, if◌then◌else◌, ◌==◌, contains, int_eq, arith, eq_of_==, ==_self,
  option_string_eq,
}
use esphome_rf_cloner.Base.Dict.{
  Dict, keys, lookup, has_key, lookup-insert, lookup-erase, contains-keys,
}
use esphome_rf_cloner.Entry.{ConfigEntry}
use esphome_rf_cloner.Models.CommandInfo.{CommandInfo}
use esphome_rf_cloner.Models.BridgeStatus.{BridgeStatus}
use esphome_rf_cloner.Button.{
  Platform, placement, place_id, sorted, stays, gone, moved, fresh, remove_each, add_each,
  add_button, command_of, placed_as, async_apply, set_icons,
}

contains-append :
    (xs ys : List ℤ) (k : ℤ) → contains (xs ++ ys) k ≡ (contains xs k || contains ys k)
contains-append [] ys k = refl
contains-append (x ∷ xs) ys k = ground (arith, contains-append xs ys k)

contains-keep :
    (p : ℤ → Bool) (xs : List ℤ) (k : ℤ) → contains (keep p xs) k ≡ (p k && contains xs k)
contains-keep p [] k = ground arith
contains-keep p (x ∷ xs) k =
    let same : (k == x) ≡ true → p k ≡ p x = λ h. ap p (eq_of_== k x h) in
    ground (arith, contains-keep p xs k, same)

contains-place_id :
    (j : ℤ) (ks : List ℤ) (k : ℤ) → contains (place_id j ks) k ≡ (k == j || contains ks k)
unfolding place_id
contains-place_id j [] k = refl
contains-place_id j (x ∷ ks) k = ground (arith, contains-place_id j ks k)

pub contains-sorted : (ks : List ℤ) (k : ℤ) → contains (sorted ks) k ≡ contains ks k
unfolding sorted
contains-sorted [] k = refl
contains-sorted (x ∷ ks) k = ground (arith, contains-place_id x (sorted ks) k, contains-sorted ks k)

contains-nothing : (xs : List ℤ) → ((k : ℤ) → contains xs k ≡ false) → xs ≡ []
contains-nothing [] h = refl
contains-nothing (x ∷ xs) h = ground (arith, h x, ==_self x)

and_assoc : (a b c : Bool) → ((a && b) && c) ≡ (a && b && c)
and_assoc a b c = ground arith

wanted_of :
    (has stay wanted : Bool)
    → ((has && not stay && wanted) || not has && wanted) ≡ true
    → wanted ≡ true
wanted_of has stay wanted h = ground arith

settled_at :
    (wanted : Bool) (o : Option (Option String)) (at : Option String)
    → let has = elim o as (λ _. Bool) [ none ↦ false | some _ ↦ true ] in
      let stay = placed_as o at in
      (if (has && not stay && wanted) || not has && wanted
        then some at
        else (if (not wanted && has) || (has && not stay && wanted) then none else o))
      ≡ (if wanted then some at else none)
settled_at wanted none at = ground arith
settled_at wanted (some old) at =
    let same : (old == at) ≡ true → old ≡ at = eq_of_== old at in ground (arith, same)

nested :
    (a b : Bool) (o : Option (Option String))
    → (if a then none else (if b then none else o)) ≡ (if b || a then none else o)
nested a b o = ground arith

module _ (bridge_id : String) (entry : ConfigEntry) (status : Option BridgeStatus) where
  lookup-remove_each :
      (ks : List ℤ) (p : Platform) (k : ℤ)
      → lookup k (remove_each bridge_id entry status ks p).placed
        ≡ (if contains ks k then none else lookup k p.placed)
  unfolding remove_each
  lookup-remove_each [] p k = refl
  lookup-remove_each (j ∷ ks) p k =
      lookup-remove_each ks _ k
      ∙ rw (lookup-erase k j p.placed) (nested (contains ks k) (k == j) (lookup k p.placed))

  nested_at :
      (j k : ℤ) (a : Bool) (o : Option (Option String))
      → (if a then some (placement entry k) else (if k == j then some (placement entry j) else o))
        ≡ (if k == j || a then some (placement entry k) else o)
  nested_at j k a o =
      let same : (k == j) ≡ true → placement entry k ≡ placement entry j =
        λ h. ap (placement entry) (eq_of_== k j h) in
      ground (arith, same)

  -- Every one of the ids is listed.
  abbrev pub AllListed : List ℤ → Type 0
  AllListed ks =
      (k : ℤ)
      → contains ks k ≡ true
      → (c : CommandInfo) × (command_of bridge_id entry status k ≡ some c)

  added_placed :
      (j k : ℤ) (o : Option CommandInfo) (p : Platform) (c : CommandInfo)
      → o ≡ some c
      → lookup k (add_button bridge_id entry status j o p).placed
        ≡ (if k == j then some (placement entry j) else lookup k p.placed)
  added_placed j k none p c h = cc
  added_placed j k (some command) p c h = lookup-insert k j (placement entry j) p.placed

  pub listed_head :
      (j : ℤ) (ks : List ℤ)
      → AllListed (j ∷ ks)
      → (c : CommandInfo) × (command_of bridge_id entry status j ≡ some c)
  listed_head j ks h = h j (ground (arith, ==_self j))

  pub listed_tail : (j : ℤ) (ks : List ℤ) → AllListed (j ∷ ks) → AllListed ks
  listed_tail j ks h k e = h k (ground (arith, e))

  lookup-add_each :
      (ks : List ℤ) (p : Platform) (k : ℤ)
      → AllListed ks
      → lookup k (add_each bridge_id entry status ks p).placed
        ≡ (if contains ks k then some (placement entry k) else lookup k p.placed)
  unfolding add_each
  lookup-add_each [] p k h = refl
  lookup-add_each (j ∷ ks) p k h =
      let (c, found) = listed_head j ks h in
      lookup-add_each ks _ k (listed_tail j ks h)
      ∙ rw (added_placed j k (command_of bridge_id entry status j) p c found)
          (nested_at j k (contains ks k) (lookup k p.placed))

  abbrev pub comes : List ℤ → Dict ℤ (Option String) → List ℤ
  comes wanted placed =
      moved bridge_id entry status wanted placed ++ fresh bridge_id entry status wanted placed

  abbrev pub goes : List ℤ → Dict ℤ (Option String) → List ℤ
  goes wanted placed =
      gone bridge_id entry status wanted placed ++ moved bridge_id entry status wanted placed

  contains-moved :
      (wanted : List ℤ) (placed : Dict ℤ (Option String)) (k : ℤ)
      → contains (moved bridge_id entry status wanted placed) k
        ≡ (has_key k placed && not (stays bridge_id entry status placed k) && contains wanted k)
  unfolding moved
  contains-moved wanted placed k =
      contains-keep (λ k. has_key k placed && not (stays bridge_id entry status placed k))
        (sorted wanted) k
      ∙ rw (contains-sorted wanted k) (and_assoc (has_key k placed) _ (contains wanted k))

  pub contains-comes :
      (wanted : List ℤ) (placed : Dict ℤ (Option String)) (k : ℤ)
      → contains (comes wanted placed) k ≡ (
          (has_key k placed && not (stays bridge_id entry status placed k) && contains wanted k)
          || not (has_key k placed) && contains wanted k)
  unfolding fresh
  contains-comes wanted placed k =
      contains-append (moved bridge_id entry status wanted placed) _ k
      ∙ rw
          (
            contains-moved wanted placed k,
            contains-keep (λ k. not (has_key k placed)) (sorted wanted) k,
            contains-sorted wanted k,
          )
          refl

  pub contains-goes :
      (wanted : List ℤ) (placed : Dict ℤ (Option String)) (k : ℤ)
      → contains (goes wanted placed) k ≡ (
          (not (contains wanted k) && has_key k placed)
          || (has_key k placed && not (stays bridge_id entry status placed k) && contains wanted k))
  unfolding gone
  contains-goes wanted placed k =
      contains-append (gone bridge_id entry status wanted placed) _ k
      ∙ rw
          (
            contains-moved wanted placed k,
            contains-keep (λ k. not (contains wanted k)) (keys placed) k,
            contains-keys k placed,
          )
          refl

  pub comes-AllListed :
      (wanted : List ℤ) (placed : Dict ℤ (Option String))
      → AllListed wanted
      → AllListed (comes wanted placed)
  comes-AllListed wanted placed h k e = h k (
      wanted_of (has_key k placed) (stays bridge_id entry status placed k) (contains wanted k)
        (sym (contains-comes wanted placed k) ∙ e))

  settled :
      (wanted : List ℤ) (placed : Dict ℤ (Option String)) (k : ℤ)
      → (if contains (comes wanted placed) k
          then some (placement entry k)
          else (if contains (goes wanted placed) k then none else lookup k placed))
        ≡ (if contains wanted k then some (placement entry k) else none)
  unfolding has_key
  settled wanted placed k =
      rw (contains-comes wanted placed k, contains-goes wanted placed k)
        (settled_at (contains wanted k) (lookup k placed) (placement entry k))

  -- After a pass exactly the visible commands are placed, each under the subentry of the target
  -- that it is assigned to, or under none; whatever was placed before, and provided that the status
  -- lists every visible command.
  pub async_apply-placement :
      (wanted : List ℤ) (p : Platform) (k : ℤ)
      → AllListed wanted
      → lookup k (async_apply bridge_id entry status wanted p).placed
        ≡ (if contains wanted k then some (placement entry k) else none)
  unfolding async_apply
  async_apply-placement wanted p k h =
      lookup-add_each (comes wanted p.placed) _ k (comes-AllListed wanted p.placed h)
      ∙ rw
          (lookup-remove_each (goes wanted p.placed)
            (record p {
              entities = set_icons bridge_id entry status p.placed (sorted wanted) p.entities;
            })
            k)
          (settled wanted p.placed k)

  still :
      (wanted : List ℤ) (q : Platform)
      → comes wanted q.placed ≡ []
      → goes wanted q.placed ≡ []
      → (async_apply bridge_id entry status wanted q).deeds ≡ q.deeds
  unfolding async_apply add_each remove_each
  still wanted q none_comes none_goes = rw (none_comes, none_goes) refl

  quiet_at :
      (wanted : Bool) (o : Option (Option String)) (at : Option String)
      → o ≡ (if wanted then some at else none)
      → let has = elim o as (λ _. Bool) [ none ↦ false | some _ ↦ true ] in
        let stay = placed_as o at in
        (((has && not stay && wanted) || not has && wanted) ≡ false)
        × (((not wanted && has) || (has && not stay && wanted)) ≡ false)
  quiet_at true o at h = rw (h, ==_self at) (refl, refl)
  quiet_at false o at h = rw h (refl, refl)

  quiet :
      (wanted : List ℤ) (p : Platform) (k : ℤ)
      → AllListed wanted
      → let placed = (async_apply bridge_id entry status wanted p).placed in
        (contains (comes wanted placed) k ≡ false) × (contains (goes wanted placed) k ≡ false)
  unfolding has_key
  quiet wanted p k h =
      let placed = (async_apply bridge_id entry status wanted p).placed in
      rw (contains-comes wanted placed k, contains-goes wanted placed k)
        (quiet_at (contains wanted k) (lookup k placed) (placement entry k)
          (async_apply-placement wanted p k h))

  -- A second pass over the same commands asks Home Assistant for nothing: it removes no button and
  -- adds none. The status has to list every visible command.
  pub async_apply_idem :
      (wanted : List ℤ) (p : Platform)
      → AllListed wanted
      → (async_apply bridge_id entry status wanted
          (async_apply bridge_id entry status wanted p)).deeds
        ≡ (async_apply bridge_id entry status wanted p).deeds
  async_apply_idem wanted p h =
      let q = async_apply bridge_id entry status wanted p in
      still wanted q (contains-nothing (comes wanted q.placed) (λ k. (quiet wanted p k h).0))
        (contains-nothing (goes wanted q.placed) (λ k. (quiet wanted p k h).1))
