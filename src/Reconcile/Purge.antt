-- ===== src/Reconcile/Purge.antt =====
-- Which records of the entity registry a purge leaves.
use esphome_rf_cloner.Base.{
  ℤ, String, ◌≡◌, refl, ap, ◌∙◌, sym, Bool, true, false, not, ◌&&◌, List, [], ◌∷◌, any, keep, All,
  if◌then◌else◌, ◌==◌, string_eq, int_eq, arith, ==_self,
}
use esphome_rf_cloner.Registry.{RegistryEntry, EntityRegistry, IsRegistry}
use esphome_rf_cloner.Reconcile.{is_gone, purge_each}

==_flip : (a b : String) → (a == b) ≡ (b == a)
==_flip a b = ground arith

-- No two records have one entity id, as the registry sees to.
abbrev pub UniqueEntities : List RegistryEntry → Type 0
UniqueEntities [] = Unit
UniqueEntities (r ∷ rs) = All (λ q. (q.entity_id == r.entity_id) ≡ false) rs × UniqueEntities rs

keep-keep :
    (p q : RegistryEntry → Bool) (rs : List RegistryEntry)
    → keep p (keep q rs) ≡ keep (λ r. q r && p r) rs
keep-keep p q [] = refl
keep-keep p q (r ∷ rs) = ground (arith, keep-keep p q rs)

keep_same :
    (p q : RegistryEntry → Bool) (rs : List RegistryEntry)
    → ((r : RegistryEntry) → p r ≡ q r)
    → keep p rs ≡ keep q rs
keep_same p q [] h = refl
keep_same p q (r ∷ rs) h = ground (arith, keep_same p q rs h, h r)

keep_on :
    (p q : RegistryEntry → Bool) (rs : List RegistryEntry)
    → All (λ r. p r ≡ q r) rs
    → keep p rs ≡ keep q rs
keep_on p q [] h = refl
keep_on p q (r ∷ rs) h = ground (arith, keep_on p q rs h.1, h.0)

keep_all : (rs : List RegistryEntry) → keep (λ r. true) rs ≡ rs
keep_all [] = refl
keep_all (r ∷ rs) = ground (arith, keep_all rs)

module _ (gone : RegistryEntry → Bool) where
  -- A record of `rs` that is gone has this entity id.
  abbrev pub doomed : List RegistryEntry → String → Bool
  doomed rs entity_id = any (λ r. gone r && (entity_id == r.entity_id)) rs

  not_doomed :
      (r : RegistryEntry) (rs : List RegistryEntry)
      → All (λ q. (q.entity_id == r.entity_id) ≡ false) rs
      → doomed rs r.entity_id ≡ false
  not_doomed r [] h = refl
  not_doomed r (q ∷ rs) h =
      ground (arith, ==_flip r.entity_id q.entity_id, h.0, not_doomed r rs h.1)

  doomed_tail :
      (r : RegistryEntry) (all rs : List RegistryEntry)
      → All (λ q. (q.entity_id == r.entity_id) ≡ false) rs
      → All (λ q. not (doomed all q.entity_id) ≡ not (gone q)) rs
      → All (λ q. not (doomed (r ∷ all) q.entity_id) ≡ not (gone q)) rs
  doomed_tail r all [] h k = tt
  doomed_tail r all (q ∷ rs) h k = (ground (arith, h.0, k.0), doomed_tail r all rs h.1 k.1)

  -- With unique entity ids, to be doomed is to be gone.
  pub doomed-gone :
      (rs : List RegistryEntry)
      → UniqueEntities rs
      → All (λ r. not (doomed rs r.entity_id) ≡ not (gone r)) rs
  doomed-gone [] u = tt
  doomed-gone (r ∷ rs) u = (
    ground (arith, ==_self r.entity_id, not_doomed r rs u.0),
    doomed_tail r rs rs u.0 (doomed-gone rs u.1),
  )

module _ (R : EntityRegistry) (law : IsRegistry R) (bridge_id : String) (listed : List ℤ) where
  abbrev spared : List RegistryEntry → RegistryEntry → Bool
  spared rs r = not (doomed (is_gone bridge_id listed) rs r.entity_id)

  purge_next :
      (r : RegistryEntry) (rs : List RegistryEntry) (s : R.State) (entry_id : String)
      → ((s' : R.State)
          → R.entries (purge_each R bridge_id listed rs s') entry_id
            ≡ keep (spared rs) (R.entries s' entry_id))
      → (gone : Bool) → is_gone bridge_id listed r ≡ gone
      → R.entries
          (purge_each R bridge_id listed rs (if gone then R.remove r.entity_id s else s))
          entry_id
        ≡ keep (spared (r ∷ rs)) (R.entries s entry_id)
  purge_next r rs s entry_id rest false e =
      rest s ∙ keep_same (spared rs) (spared (r ∷ rs)) (R.entries s entry_id) λ q. rw e refl
  purge_next r rs s entry_id rest true e =
      rest (R.remove r.entity_id s)
      ∙ ap (keep (spared rs)) (law.entries-remove r.entity_id entry_id s)
      ∙ keep-keep (spared rs) (λ q. not (q.entity_id == r.entity_id)) (R.entries s entry_id)
      ∙ keep_same (λ q. not (q.entity_id == r.entity_id) && spared rs q) (spared (r ∷ rs))
          (R.entries s entry_id) λ q. rw e (ground arith)

  purge_each-doomed :
      (rs : List RegistryEntry) (s : R.State) (entry_id : String)
      → R.entries (purge_each R bridge_id listed rs s) entry_id
        ≡ keep (λ r. not (doomed (is_gone bridge_id listed) rs r.entity_id)) (R.entries s entry_id)
  unfolding purge_each
  purge_each-doomed [] s entry_id = sym (keep_all (R.entries s entry_id))
  purge_each-doomed (r ∷ rs) s entry_id =
      purge_next r rs s entry_id (λ s'. purge_each-doomed rs s' entry_id)
        (is_gone bridge_id listed r) refl

  -- Of the entry's records a purge leaves, in their order, those that name no command or one that
  -- is listed, and drops all others, provided that no two of the records have one entity id.
  pub purge_each-listed :
      (s : R.State) (entry_id : String)
      → UniqueEntities (R.entries s entry_id)
      → R.entries (purge_each R bridge_id listed (R.entries s entry_id) s) entry_id
        ≡ keep (λ r. not (is_gone bridge_id listed r)) (R.entries s entry_id)
  purge_each-listed s entry_id unique =
      purge_each-doomed (R.entries s entry_id) s entry_id
      ∙ keep_on (spared (R.entries s entry_id)) (λ r. not (is_gone bridge_id listed r))
          (R.entries s entry_id)
          (doomed-gone (is_gone bridge_id listed) (R.entries s entry_id) unique)
