-- ===== src/Targets/Tests.antt =====
-- The organisation of the demonstration entry.
use esphome_rf_cloner.Base.{ℤ, pos, ◌≡◌, ◌↔◌, refl, false, none, some, [], ◌∷◌, int_eq, string_eq}
use esphome_rf_cloner.Base.Dict.{Dict, lookup, NodupKeys}
use esphome_rf_cloner.Entry.{with_options}
use esphome_rf_cloner.Targets.{
  CommandMeta, targets, command_meta, options_with, options_pruned_to, is_stale, is_dangling,
}
use esphome_rf_cloner.Targets.Options.{updated, command_meta-options_with}
use esphome_rf_cloner.Targets.Prune.{survives, prune, command_meta-prune, options_pruned_to-none}
use esphome_rf_cloner.Demo.{entry}

abbrev power : CommandMeta
power = record { target_id = some "t1"; icon = none }

-- One command is given another target, and one is forgotten.
abbrev updates : Dict ℤ CommandMeta
updates = (pos 2, power) ∷ (pos 7, record { target_id = none; icon = none }) ∷ []

updates_differ : NodupKeys updates
unfolding lookup int_eq
updates_differ = (refl, (refl, tt))

command_meta-options_with_example :
    lookup (pos 7) (command_meta (with_options entry (options_with entry updates)))
    ≡ updated (lookup (pos 7) updates) (lookup (pos 7) (command_meta entry))
command_meta-options_with_example = command_meta-options_with entry updates (pos 7) updates_differ

command_meta-prune_example :
    lookup (pos 7) (command_meta (prune (some (pos 1 ∷ [])) none entry))
    ≡ survives
        (some (pos 1 ∷ []))
        none
        (targets entry)
        (pos 7)
        (lookup (pos 7) (command_meta entry))
command_meta-prune_example = command_meta-prune (some (pos 1 ∷ [])) none entry (pos 7)

options_pruned_to-none_example : (options_pruned_to entry none none ≡ none) ↔ (
    (k : ℤ) (m : CommandMeta)
    → lookup k (command_meta entry) ≡ some m
    → (is_stale none none k ≡ false) × (is_dangling (targets entry) m ≡ false))
options_pruned_to-none_example = options_pruned_to-none none none entry
