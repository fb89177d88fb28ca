-- ===== src/Setup/Tests.antt =====
-- Tests of __init__.py: a bridge that is set up and polled.
use esphome_rf_cloner.Base.{
  ℕ, pos, String, ◌≡◌, ◌≢◌, refl, ap, ◌∙◌, ◌==◌, ==_self, Bool, true, false, Option, none, some,
  List, [], ◌∷◌, inl, string_eq, arith,
}
use esphome_rf_cloner.Python.Result.{ok}
use esphome_rf_cloner.Models.BridgeStatus.{BridgeStatus}
use esphome_rf_cloner.Coordinator.{async_update_data}
use esphome_rf_cloner.Runtime.{RfClonerRuntimeData, World, entry_of}
use esphome_rf_cloner.Setup.{async_setup_entry, async_poll, async_entry_updated}
use esphome_rf_cloner.Setup.Identity.{IsSound}
use esphome_rf_cloner.Setup.Own.{IsOwn}
use esphome_rf_cloner.Setup.Foreign.{AfterForeign, async_poll-foreign}
use esphome_rf_cloner.Setup.System.{
  polls, hears, sets_up, Reach, done, next, Trusts, Reach-IsSound, Reach-unique_id,
}
use esphome_rf_cloner.Demo.{
  bridge, status_in, entry, host, transport, manager, registry, reconciler, devices,
}

abbrev Bridge : Type 0
Bridge = World host registry devices

-- The bridge before it is set up: vacant hardware, and an entry that has the identity already.
abbrev off : Bridge
off = record { host = (0, 5); devices = []; reconciler = reconciler; runtime = none }

abbrev on : Bridge
on = (async_setup_entry host registry devices off).1

sets_up-ok : (async_setup_entry host registry devices off).0 ≡ ok true
unfolding async_setup_entry esphome_rf_cloner.Base.Dict.lookup string_eq async_update_data
    esphome_rf_cloner.Python.Exec.catching esphome_rf_cloner.Transport.async_status
    esphome_rf_cloner.Transport.call esphome_rf_cloner.Transport.service_name
    esphome_rf_cloner.Transport.node_name esphome_rf_cloner.Python.Value.truth
    esphome_rf_cloner.Models.BridgeStatus.from_payload
    esphome_rf_cloner.Devices.async_register_bridge_device esphome_rf_cloner.Snapshot.async_load
sets_up-ok = refl

-- It is then polled, and told of a change of the entry.
abbrev later : Bridge
later = (async_entry_updated host registry devices (async_poll host registry devices on)).1

abbrev life : Reach host registry devices off later
life = next off on _ (sets_up off refl) (
    next on (async_poll host registry devices on) _ (polls on) (
      next (async_poll host registry devices on) _ _ (hears (async_poll host registry devices on))
        (done _)))

-- The store of the demonstration holds nothing.
loads : Trusts host registry devices off later life
loads = (λ t bridge_id stored snapshot found read. cc, (tt, (tt, tt)))

Reach-IsSound_example : IsSound host registry devices later × IsOwn host registry devices later
Reach-IsSound_example = Reach-IsSound host registry devices off _ life loads tt tt

Reach-unique_id_example : (entry_of later).unique_id ≡ some bridge
Reach-unique_id_example = Reach-unique_id host registry devices off _ life tt refl

-- The same node, under an entry that is another bridge's.
abbrev runtime : RfClonerRuntimeData host
runtime = record {
  bridge_id = "bridge-2";
  bridge_device_id = "device-2";
  transport = transport;
  status = none;
  snapshots = record manager { bridge_id = "bridge-2" };
  bound_to = ("esphome-1", "rf_");
}

abbrev replaced : Bridge
replaced = record off {
  reconciler = record reconciler { entry = record entry { unique_id = some "bridge-2" } };
  runtime = some runtime;
}

replaced-IsSound : IsSound host registry devices replaced
replaced-IsSound = record { owner = inl refl; replica = refl; bound = refl; calls = refl }

reads : async_update_data host transport (0, 5) ≡ (ok (status_in 0), (0, 5))
unfolding async_update_data esphome_rf_cloner.Python.Exec.catching
    esphome_rf_cloner.Transport.async_status esphome_rf_cloner.Transport.call
    esphome_rf_cloner.Transport.service_name esphome_rf_cloner.Transport.node_name
    esphome_rf_cloner.Base.Dict.lookup string_eq esphome_rf_cloner.Python.Value.truth
    esphome_rf_cloner.Models.BridgeStatus.from_payload
reads = refl

-- Texts that the code tells apart differ.
differ : (a b : String) → (a == b) ≡ false → a ≢ b
differ a b h same = let equal : (a == b) ≡ true = ap (λ x. x == b) same ∙ ==_self b in cc

other : bridge ≢ "bridge-2"
unfolding string_eq
other = differ bridge "bridge-2" refl

nonempty : ◌≢◌ {A = String} "bridge-2" ""
unfolding string_eq
nonempty = differ "bridge-2" "" refl

async_poll-foreign_example :
    async_poll host registry devices replaced
    ≡ AfterForeign host registry devices runtime (status_in 0) (0, 5) replaced
async_poll-foreign_example =
    async_poll-foreign host registry devices replaced (status_in 0) (0, 5) replaced-IsSound refl
      refl nonempty reads other
