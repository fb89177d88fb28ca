-- ===== src/Button/Pass.antt =====
-- button.py: a whole pass, for the buttons and for what Home Assistant is asked.
use mathlib.Core.List.{Mem}
use esphome_rf_cloner.Base.{
  ℤ, String, ◌≡◌, Bool, true, false, not, ◌&&◌, Option, none, some, List, ◌++◌, map, if◌then◌else◌,
  contains, int_eq, option_string_eq,
}
use esphome_rf_cloner.Base.Dict.{Dict, lookup, has_key}
use esphome_rf_cloner.Entry.{ConfigEntry}
use esphome_rf_cloner.Models.BridgeStatus.{BridgeStatus}
use esphome_rf_cloner.Button.{
  Deed, removed, Platform, placement, sorted, stays, set_icons, remove_each, command_of,
}
use esphome_rf_cloner.Button.Placed.{AllListed, goes}
use esphome_rf_cloner.Button.Asked.{addition, with_icon, button_of}

-- The bookkeeping is of the buttons: what is placed has a button, and what has a button is placed.
abbrev pub IsTracked : Platform → Type 0
IsTracked p = (k : ℤ) → has_key k p.placed ≡ has_key k p.entities

abbrev is_some : {V : Type 0} → Option V → Bool
is_some none = false
is_some (some v) = true

module _ (bridge_id : String) (entry : ConfigEntry) (status : Option BridgeStatus) where
  -- The buttons that a pass leaves: none of a command that is not visible, the one that was there,
  -- with its icon renewed, of a command that is placed where it belongs, a new one of every other.
  abbrev pub Buttons : List ℤ → Platform → Platform → Type 0
  Buttons wanted p p' =
      (k : ℤ)
      → (lookup k p'.placed ≡ (if contains wanted k then some (placement entry k) else none))
        × (has_key k p'.entities ≡ contains wanted k)
        × (lookup k p'.entities ≡ (
            if contains wanted k
            then (if stays bridge_id entry status p.placed k
                then with_icon bridge_id entry status k (lookup k p.entities)
                else button_of bridge_id entry status k (command_of bridge_id entry status k))
            else none))

  -- What a pass has asked for: removals first, among them one of every button that is not visible
  -- or not where it belongs, then a button for exactly the visible commands that had none there,
  -- each under the subentry of its target.
  abbrev pub Asks : List ℤ → Platform → Platform → Type 0
  Asks wanted p p' =
      (outs : List Deed) × (ins : List ℤ) × (p'.deeds
        ≡ (p.deeds ++ outs) ++ map (addition bridge_id entry status) ins)
      × ((k : ℤ)
          → contains ins k ≡ (contains wanted k && not (stays bridge_id entry status p.placed k)))
      × ((k : ℤ)
          → has_key k p.placed ≡ true
          → (contains wanted k && stays bridge_id entry status p.placed k) ≡ false
          → Mem (removed k) outs)

  module _ (wanted : List ℤ) (p : Platform) (listed : AllListed bridge_id entry status wanted)
      (tracked : IsTracked p) where
    abbrev kept : Platform
    kept = record p {
      entities = set_icons bridge_id entry status p.placed (sorted wanted) p.entities;
    }

    abbrev left : Platform
    left = remove_each bridge_id entry status (goes bridge_id entry status wanted p.placed) kept
