-- ===== src/Button/Tests.antt =====
-- Passes over the demonstration bridge's command.
use esphome_rf_cloner.Base.{
  ℤ, pos, ◌≡◌, refl, false, some, none, List, [], ◌∷◌, int_eq, eq_of_==, arith,
}
use esphome_rf_cloner.Base.Dict.{lookup}
use esphome_rf_cloner.Models.BridgeStatus.{by_id}
use esphome_rf_cloner.Button.{CommandButton, Platform, async_apply, command_of}
use esphome_rf_cloner.Button.Placed.{AllListed, async_apply_idem}
use esphome_rf_cloner.Demo.{bridge, entry, status_in, row}

abbrev visible : List ℤ
visible = pos 1 ∷ []

-- A button that is to go, and one that has to move under its target.
abbrev platform : Platform
platform = record { placed = (pos 7, none) ∷ (pos 1, none) ∷ []; entities = []; deeds = [] }

row_listed : command_of bridge entry (some (status_in 3)) (pos 1) ≡ some row
unfolding by_id lookup int_eq
row_listed = refl

all_listed : AllListed bridge entry (some (status_in 3)) visible
all_listed k h =
    let same : k ≡ pos 1 = eq_of_== k (pos 1) (ground (arith, h)) in (row, rw same row_listed)

abbrev button : CommandButton
button = record {
  command_id = pos 1;
  name = "power";
  target = none;
  unique_id = "bridge-1_1";
  icon = "mdi:remote";
  has_entity_name = false;
  device = none;
}

-- The same platform, with the buttons of which it keeps the books.
abbrev tracked_platform : Platform
tracked_platform = record platform { entities = (pos 7, button) ∷ (pos 1, button) ∷ [] }

async_apply_idem_example :
    (async_apply bridge entry
      (some (status_in 3))
      visible
      (async_apply bridge entry (some (status_in 3)) visible platform)).deeds
    ≡ (async_apply bridge entry (some (status_in 3)) visible platform).deeds
async_apply_idem_example =
    async_apply_idem bridge entry (some (status_in 3)) visible platform all_listed
