-- ===== src/Migration/Kept.antt =====
-- What a migration keeps: every entity, under its ids.
use esphome_rf_cloner.Base.{
  String, ◌≡◌, refl, ap, ◌∙◌, sym, Bool, true, false, not, none, some, List, [], ◌∷◌, keep, map,
  All, if◌then◌else◌, ◌==◌, contains, string_eq, option_string_eq, arith,
}
use esphome_rf_cloner.Entry.{ConfigEntry}
use esphome_rf_cloner.Registry.{RegistryEntry, EntityRegistry, IsRegistry, detached}
use esphome_rf_cloner.Reconcile.Purge.{UniqueEntities, doomed, doomed-gone}
use esphome_rf_cloner.Migration.{
  command_subentry_ids, is_retiring, without, detach_each, remove_each, async_migrate_to_targets,
}

module _ (ids : List String) where
  -- What is to become of a record.
  abbrev pub retired : RegistryEntry → RegistryEntry
  retired r = if is_retiring ids r then detached r else r

  abbrev touched : List RegistryEntry → RegistryEntry → RegistryEntry
  touched rs r = if doomed (is_retiring ids) rs r.entity_id then detached r else r

  map_on :
      (f g : RegistryEntry → RegistryEntry) (rs : List RegistryEntry)
      → All (λ r. f r ≡ g r) rs
      → map f rs ≡ map g rs
  map_on f g [] h = refl
  map_on f g (r ∷ rs) h = rw (h.0, map_on f g rs h.1) refl

  map_same :
      (f g : RegistryEntry → RegistryEntry) (rs : List RegistryEntry)
      → ((r : RegistryEntry) → f r ≡ g r)
      → map f rs ≡ map g rs
  map_same f g [] h = refl
  map_same f g (r ∷ rs) h = rw (h r, map_same f g rs h) refl

  map-map :
      (f g : RegistryEntry → RegistryEntry) (rs : List RegistryEntry)
      → map f (map g rs) ≡ map (λ r. f (g r)) rs
  map-map f g [] = refl
  map-map f g (r ∷ rs) = rw (map-map f g rs) refl

  map_self : (rs : List RegistryEntry) → map (λ r. r) rs ≡ rs
  map_self [] = refl
  map_self (r ∷ rs) = rw (map_self rs) refl

  if_same : (b : Bool) (r : RegistryEntry) → (if b then r else r) ≡ r
  if_same true r = refl
  if_same false r = refl

  touched_at :
      (r : RegistryEntry) (rs : List RegistryEntry) (q : RegistryEntry) (same : Bool)
      → is_retiring ids r ≡ true
      → (q.entity_id == r.entity_id) ≡ same
      → touched rs (if same then detached q else q) ≡ touched (r ∷ rs) q
  touched_at r rs q true h e =
      rw (h, e) (if_same (doomed (is_retiring ids) rs q.entity_id) (detached q))
  touched_at r rs q false h e = rw (h, e) refl

  touched_next :
      (r : RegistryEntry) (rs : List RegistryEntry) (q : RegistryEntry)
      → is_retiring ids r ≡ true
      → touched rs (if q.entity_id == r.entity_id then detached q else q) ≡ touched (r ∷ rs) q
  touched_next r rs q h = touched_at r rs q (q.entity_id == r.entity_id) h refl

  touched_skip :
      (r : RegistryEntry) (rs : List RegistryEntry) (q : RegistryEntry)
      → is_retiring ids r ≡ false
      → touched rs q ≡ touched (r ∷ rs) q
  touched_skip r rs q h = rw h refl

  touched-retired :
      (rs all : List RegistryEntry)
      → All (λ r. not (doomed (is_retiring ids) all r.entity_id) ≡ not (is_retiring ids r)) rs
      → All (λ r. touched all r ≡ retired r) rs
  touched-retired [] all h = tt
  touched-retired (r ∷ rs) all h = (ground (arith, h.0), touched-retired rs all h.1)

  none_free : (xs : List String) → contains (map (λ (id : String). some id) xs) none ≡ false
  none_free [] = refl
  none_free (id ∷ xs) = ground (arith, none_free xs)

  retired_at-Free :
      (r : RegistryEntry) (retires : Bool)
      → is_retiring ids r ≡ retires
      → is_retiring ids (if retires then detached r else r) ≡ false
  retired_at-Free r true e = none_free ids
  retired_at-Free r false e = e

  -- None of the records is one of a subentry that is to go.
  abbrev pub Free : List RegistryEntry → Type 0
  Free rs = All (λ r. is_retiring ids r ≡ false) rs

  retired-Free : (rs : List RegistryEntry) → Free (map retired rs)
  retired-Free [] = tt
  retired-Free (r ∷ rs) = (retired_at-Free r (is_retiring ids r) refl, retired-Free rs)

Free-rest :
    (id : String) (ids : List String) (rs : List RegistryEntry)
    → Free (id ∷ ids) rs
    → (keep (λ r. not (r.config_subentry_id == some id)) rs ≡ rs) × Free ids rs
Free-rest id ids [] h = (refl, tt)
Free-rest id ids (r ∷ rs) h =
    let (same, free) = Free-rest id ids rs h.1 in
    (ground (arith, h.0, same), (ground (arith, h.0), free))

module _ (R : EntityRegistry) (law : IsRegistry R) where
  detach_next :
      (ids : List String) (r : RegistryEntry) (rs : List RegistryEntry) (s : R.State)
      (entry_id : String)
      → ((s' : R.State)
          → R.entries (detach_each R ids rs s') entry_id
            ≡ map (touched ids rs) (R.entries s' entry_id))
      → (retires : Bool) → is_retiring ids r ≡ retires
      → R.entries (detach_each R ids rs (if retires then R.detach r.entity_id s else s)) entry_id
        ≡ map (touched ids (r ∷ rs)) (R.entries s entry_id)
  detach_next ids r rs s entry_id rest false e =
      rest s
      ∙ map_same ids (touched ids rs) (touched ids (r ∷ rs)) (R.entries s entry_id)
          λ q. touched_skip ids r rs q e
  detach_next ids r rs s entry_id rest true e =
      rest (R.detach r.entity_id s)
      ∙ ap (map (touched ids rs)) (law.entries-detach r.entity_id entry_id s)
      ∙ map-map ids (touched ids rs) (λ q. if q.entity_id == r.entity_id then detached q else q)
          (R.entries s entry_id)
      ∙ map_same ids (λ q. touched ids rs (if q.entity_id == r.entity_id then detached q else q))
          (touched ids (r ∷ rs)) (R.entries s entry_id) λ q. touched_next ids r rs q e

  detach_each-touched :
      (ids : List String) (rs : List RegistryEntry) (s : R.State) (entry_id : String)
      → R.entries (detach_each R ids rs s) entry_id ≡ map (touched ids rs) (R.entries s entry_id)
  unfolding detach_each
  detach_each-touched ids [] s entry_id = sym (map_self ids (R.entries s entry_id))
  detach_each-touched ids (r ∷ rs) s entry_id =
      detach_next ids r rs s entry_id (λ s'. detach_each-touched ids rs s' entry_id)
        (is_retiring ids r) refl

  detach_each-retired :
      (ids : List String) (s : R.State) (entry_id : String)
      → UniqueEntities (R.entries s entry_id)
      → R.entries (detach_each R ids (R.entries s entry_id) s) entry_id
        ≡ map (retired ids) (R.entries s entry_id)
  detach_each-retired ids s entry_id unique =
      let rs = R.entries s entry_id in
      detach_each-touched ids rs s entry_id
      ∙ map_on ids (touched ids rs) (retired ids) rs
          (touched-retired ids rs rs (doomed-gone (is_retiring ids) rs unique))

  remove_each-Free :
      (ids : List String) (entry : ConfigEntry) (s : R.State)
      → Free ids (R.entries s entry.entry_id)
      → R.entries (remove_each R ids (entry, s)).1 entry.entry_id ≡ R.entries s entry.entry_id
  unfolding remove_each
  remove_each-Free [] entry s free = refl
  remove_each-Free (id ∷ ids) entry s free =
      let (same, rest) = Free-rest id ids (R.entries s entry.entry_id) free in
      let cleared = law.entries-clear_subentry id entry.entry_id s ∙ same in
      remove_each-Free ids (without id entry) (R.clear_subentry entry.entry_id id s)
        (rw cleared rest)
      ∙ cleared

  -- The two steps of the migration, for subentries that are to go.
  abbrev moved : List String → ConfigEntry → R.State → ConfigEntry × R.State
  moved ids entry s = remove_each R ids (entry, detach_each R ids (R.entries s entry.entry_id) s)

  moved-retired :
      (ids : List String) (entry : ConfigEntry) (s : R.State)
      → UniqueEntities (R.entries s entry.entry_id)
      → R.entries (moved ids entry s).1 entry.entry_id
        ≡ map (retired ids) (R.entries s entry.entry_id)
  moved-retired ids entry s unique =
      let rs = R.entries s entry.entry_id in
      let detaches = detach_each-retired ids s entry.entry_id unique in
      remove_each-Free ids entry (detach_each R ids rs s) (rw detaches (retired-Free ids rs))
      ∙ detaches

  migrated :
      (ids : List String) (entry : ConfigEntry) (s : R.State)
      → UniqueEntities (R.entries s entry.entry_id)
      → R.entries
          (elim ids as (λ _. ConfigEntry × R.State) [
            | [] ↦ (entry, s)
            | id ∷ rest ↦ moved (id ∷ rest) entry s
          ]).1
          entry.entry_id
        ≡ map (retired ids) (R.entries s entry.entry_id)
  migrated [] entry s unique = sym (map_self [] (R.entries s entry.entry_id))
  migrated (id ∷ ids) entry s unique = moved-retired (id ∷ ids) entry s unique

  -- A migration loses no entity: the entry has the records that it had, in their order, each with
  -- its entity id and its unique id, and those of a command subentry now belong to no subentry and
  -- no device. No two records of the entry may have one entity id.
  pub async_migrate_to_targets-retired :
      (entry : ConfigEntry) (s : R.State)
      → UniqueEntities (R.entries s entry.entry_id)
      → R.entries (async_migrate_to_targets R (entry, s)).1 entry.entry_id
        ≡ map (retired (command_subentry_ids entry)) (R.entries s entry.entry_id)
  unfolding async_migrate_to_targets
  async_migrate_to_targets-retired entry s unique =
      migrated (command_subentry_ids entry) entry s unique
