-- ===== src/Targets/Prune.antt =====
-- What `options_pruned_to` removes, when it has nothing to do, and that once is enough.
use esphome_rf_cloner.Base.{
  ℤ, String, ◌≡◌, refl, false, Option, none, some, List, [], ◌∷◌, ◌↔◌, if◌then◌else◌, ◌==◌, int_eq,
  string_eq, arith, ap, sym, ◌∙◌, Option-cases, inl, inr,
}
use esphome_rf_cloner.Base.Dict.{Dict, lookup, insert, lookup-insert, NodupKeys, insert-NodupKeys}
use esphome_rf_cloner.Python.Value.{Value}
use esphome_rf_cloner.Entry.{ConfigEntry, with_options}
use esphome_rf_cloner.Targets.{
  RfTarget, CommandMeta, empty_meta, targets, command_meta, is_stale, is_dangling, prune_updates,
  unless_empty, options_pruned_to,
}
use esphome_rf_cloner.Targets.Stored.{worth, command_meta-IsTidy, NodupKeys-IsTidy, worth-normal}
use esphome_rf_cloner.Targets.Options.{updated, command_meta-options_with}

abbrev or_old : Option CommandMeta → Option CommandMeta → Option CommandMeta
or_old none old = old
or_old (some m) old = some m

abbrev unassigned : CommandMeta → CommandMeta
unassigned m = record { target_id = none; icon = m.icon }

module _ (ids : Option (List ℤ)) (listed_below : Option ℤ) (known : Dict String RfTarget) where
  -- The update that one entry asks for.
  abbrev change : ℤ → CommandMeta → Option CommandMeta
  change k m =
      if is_stale ids listed_below k
      then some empty_meta
      else if is_dangling known m
      then some (unassigned m)
      else none

  abbrev change_of : ℤ → Option CommandMeta → Option CommandMeta → Option CommandMeta
  change_of k none u = u
  change_of k (some m) u = or_old (change k m) u

  -- What is left of one command's organisation: nothing if the command is gone, nothing but the
  -- icon if its target is, and else all of it.
  abbrev pub survives : ℤ → Option CommandMeta → Option CommandMeta
  survives k none = none
  survives k (some m) =
      if is_stale ids listed_below k
      then none
      else if is_dangling known m
      then worth (unassigned m)
      else some m

  abbrev step : ℤ → CommandMeta → Dict ℤ CommandMeta → Dict ℤ CommandMeta
  step k m u =
      if is_stale ids listed_below k
      then insert k empty_meta u
      else if is_dangling known m
      then insert k (unassigned m) u
      else u

  lookup-step :
      (i k : ℤ) (m : CommandMeta) (u : Dict ℤ CommandMeta)
      → lookup i (step k m u) ≡ (if i == k then or_old (change k m) (lookup i u) else lookup i u)
  lookup-step i k m u =
      ground (arith, lookup-insert i k empty_meta u, lookup-insert i k (unassigned m) u)

  step-NodupKeys :
      (k : ℤ) (m : CommandMeta) (u : Dict ℤ CommandMeta) → NodupKeys u → NodupKeys (step k m u)
  step-NodupKeys k m u n =
      ground (arith, insert-NodupKeys k empty_meta u n, insert-NodupKeys k (unassigned m) u n)

  prune_updates-NodupKeys :
      (d u : Dict ℤ CommandMeta)
      → NodupKeys u
      → NodupKeys (prune_updates ids listed_below known d u)
  unfolding prune_updates
  prune_updates-NodupKeys [] u n = n
  prune_updates-NodupKeys ((k, m) ∷ d) u n =
      prune_updates-NodupKeys d (step k m u) (step-NodupKeys k m u n)

  change_of_split :
      (i k : ℤ) (m : CommandMeta) (d u : Dict ℤ CommandMeta)
      → lookup k d ≡ none
      → change_of i (lookup i d) (if i == k then or_old (change k m) (lookup i u) else lookup i u)
        ≡ change_of i (if i == k then some m else lookup i d) (lookup i u)
  change_of_split i k m d u h = elim (Option-cases (lookup i d)) [
    | inl absent ↦ rw absent (ground arith)
    | inr (w, found) ↦ rw found (ground arith)
  ]

  lookup-prune_updates :
      (i : ℤ) (d u : Dict ℤ CommandMeta)
      → NodupKeys d
      → lookup i (prune_updates ids listed_below known d u) ≡ change_of i (lookup i d) (lookup i u)
  unfolding prune_updates lookup
  lookup-prune_updates i [] u n = refl
  lookup-prune_updates i ((k, m) ∷ d) u n =
      lookup-prune_updates i d (step k m u) n.1
      ∙ rw (lookup-step i k m u) (change_of_split i k m d u n.0)

  all_none : (u : Dict ℤ CommandMeta) → ((i : ℤ) → lookup i u ≡ none) → u ≡ []
  unfolding lookup
  all_none [] h = refl
  all_none ((k, m) ∷ u) h = ground (arith, h k)

abbrev pub written : ConfigEntry → Option (Dict String Value) → ConfigEntry
written entry none = entry
written entry (some options) = with_options entry options

-- The entry as its callers leave it: written only if there was something to prune.
abbrev pub prune : Option (List ℤ) → Option ℤ → ConfigEntry → ConfigEntry
prune ids listed_below entry = written entry (options_pruned_to entry ids listed_below)

module _ (ids : Option (List ℤ)) (listed_below : Option ℤ) (entry : ConfigEntry) where
  abbrev old : Dict ℤ CommandMeta
  old = command_meta entry

  abbrev updates : Dict ℤ CommandMeta
  updates = prune_updates ids listed_below (targets entry) old []

  old-NodupKeys : NodupKeys old
  old-NodupKeys = NodupKeys-IsTidy old (command_meta-IsTidy entry)

  lookup-updates :
      (k : ℤ) → lookup k updates ≡ change_of ids listed_below (targets entry) k (lookup k old) none
  unfolding lookup
  lookup-updates k = lookup-prune_updates ids listed_below (targets entry) k old [] old-NodupKeys

  updates-NodupKeys : NodupKeys updates
  updates-NodupKeys = prune_updates-NodupKeys ids listed_below (targets entry) old [] tt

  written-unless_empty :
      (k : ℤ) (u : Dict ℤ CommandMeta)
      → NodupKeys u
      → lookup k (command_meta (written entry (unless_empty entry u)))
        ≡ updated (lookup k u) (lookup k old)
  unfolding lookup
  written-unless_empty k [] n = refl
  written-unless_empty k (x ∷ u) n = command_meta-options_with entry (x ∷ u) k n

  updated-change :
      (k : ℤ) (o : Option CommandMeta)
      → lookup k old ≡ o
      → updated (change_of ids listed_below (targets entry) k o none) o
        ≡ survives ids listed_below (targets entry) k o
  updated-change k none h = refl
  updated-change k (some m) h = ground (arith, worth-normal k m old (command_meta-IsTidy entry) h)

  targets-written : (o : Option (Dict String Value)) → targets (written entry o) ≡ targets entry
  unfolding targets
  targets-written none = refl
  targets-written (some options) = refl

  -- A command keeps its organisation unless the listing shows that it is gone; it then keeps
  -- nothing. One assigned to a target that no longer exists keeps its icon alone.
  pub command_meta-prune :
      (k : ℤ)
      → lookup k (command_meta (prune ids listed_below entry))
        ≡ survives ids listed_below (targets entry) k (lookup k (command_meta entry))
  unfolding options_pruned_to
  command_meta-prune k =
      written-unless_empty k updates updates-NodupKeys
      ∙ rw (lookup-updates k) (updated-change k (lookup k old) refl)

  pub targets-prune : targets (prune ids listed_below entry) ≡ targets entry
  targets-prune = targets-written (options_pruned_to entry ids listed_below)

  unless_empty-none : (u : Dict ℤ CommandMeta) → unless_empty entry u ≡ none → u ≡ []
  unless_empty-none [] h = refl
  unless_empty-none (x ∷ u) h = cc

  change_of-none :
      (k : ℤ) (m : CommandMeta)
      → change_of ids listed_below (targets entry) k (some m) none ≡ none
      → (is_stale ids listed_below k ≡ false) × (is_dangling (targets entry) m ≡ false)
  change_of-none k m h = ground arith

  nothing_to_prune :
      options_pruned_to entry ids listed_below ≡ none
      → (k : ℤ) (m : CommandMeta) → lookup k (command_meta entry) ≡ some m
      → (is_stale ids listed_below k ≡ false) × (is_dangling (targets entry) m ≡ false)
  unfolding options_pruned_to lookup
  nothing_to_prune h k m found = change_of-none k m (
      ap (λ o. change_of ids listed_below (targets entry) k o none) (sym found)
      ∙ sym (lookup-updates k)
      ∙ ap (lookup k) (unless_empty-none updates h))

  no_change :
      (k : ℤ) (o : Option CommandMeta)
      → ((m : CommandMeta)
          → o ≡ some m
          → (is_stale ids listed_below k ≡ false) × (is_dangling (targets entry) m ≡ false))
      → change_of ids listed_below (targets entry) k o none ≡ none
  no_change k none h = refl
  no_change k (some m) h = ground (arith, h m refl)

  no_updates :
      ((k : ℤ) (m : CommandMeta)
        → lookup k (command_meta entry) ≡ some m
        → (is_stale ids listed_below k ≡ false) × (is_dangling (targets entry) m ≡ false))
      → options_pruned_to entry ids listed_below ≡ none
  unfolding options_pruned_to
  no_updates h = ap (unless_empty entry) (
      all_none ids listed_below (targets entry) updates
        λ k. lookup-updates k ∙ no_change k (lookup k old) (h k))

-- Exactly when no command is gone and no assigned target missing, there is nothing to write.
pub options_pruned_to-none :
    (ids : Option (List ℤ)) (listed_below : Option ℤ) (entry : ConfigEntry)
    → (options_pruned_to entry ids listed_below ≡ none) ↔ (
        (k : ℤ) (m : CommandMeta)
        → lookup k (command_meta entry) ≡ some m
        → (is_stale ids listed_below k ≡ false) × (is_dangling (targets entry) m ≡ false))
options_pruned_to-none ids listed_below entry =
    (nothing_to_prune ids listed_below entry, no_updates ids listed_below entry)

survives_settled :
    (ids : Option (List ℤ)) (listed_below : Option ℤ) (known : Dict String RfTarget) (k : ℤ)
    (o : Option CommandMeta) (m : CommandMeta)
    → survives ids listed_below known k o ≡ some m
    → (is_stale ids listed_below k ≡ false) × (is_dangling known m ≡ false)
unfolding is_dangling
survives_settled ids listed_below known k none m h = cc
survives_settled ids listed_below known k (some w) m h = ground arith

-- After one pruning there is nothing left to prune.
pub prune_idem :
    (ids : Option (List ℤ)) (listed_below : Option ℤ) (entry : ConfigEntry)
    → options_pruned_to (prune ids listed_below entry) ids listed_below ≡ none
prune_idem ids listed_below entry =
    (options_pruned_to-none ids listed_below (prune ids listed_below entry)).1 λ k m h.
      rw (targets-prune ids listed_below entry) (
        survives_settled ids listed_below (targets entry) k (lookup k (command_meta entry)) m
          (sym (command_meta-prune ids listed_below entry k) ∙ h))
