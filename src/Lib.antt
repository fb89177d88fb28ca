-- ===== src/Lib.antt =====
-- The RF cloner integration of Home Assistant, as a model with theorems.
--
-- The program keeps a bridge's registry of learned RF commands in step with Home Assistant. An
-- ESPHome device (components/rf_cloner) stores the commands and answers the actions rf_status,
-- rf_export and so on; the Python integration (custom_components/rf_cloner) reads them,
-- mirrors them as entities, keeps their organisation in the options of a config entry,
-- replicates them and restores a replica onto new hardware. The Python side is what is
-- modelled here, function by function and under the names of the source.
--
-- Which file models which part:
--   Base, Python: numbers, lists, dictionaries; exceptions as values (Python.Result), code that
--     raises and changes a state (Python.Exec), texts, `int` and `str` (Python.Decimal), dynamic
--     values (Python.Value).
--   Const: custom_components/rf_cloner/const.py.
--   Models: models.py. A payload is a Value, and from_payload reads its fields in the order of
--     the source.
--   Entry: Home Assistant's config entries, as records.
--   Targets: targets.py. The options of an entry hold the metadata of commands; command_meta
--     reads them as a dictionary, options_with and options_pruned_to write them.
--   Host, Registry: Home Assistant as parameters: the actions, the clock and the store are the
--     fields of Host, the entity registry is EntityRegistry with its documented behaviour as the
--     laws of IsRegistry. Host.Recorded adds the list of the calls that were made.
--   Transport: transport.py; Transport.Trace says which calls a piece of code makes, and in
--     which order.
--   Snapshot, Restore: snapshot.py and restore.py.
--   Coordinator: coordinator.py. The polling loop runs on fuel; 30 rounds are enough, since each
--     sleeps for a second and the deadline is 30 seconds away (IsTicking: sleeping takes as long
--     as was asked for).
--   Reconcile: reconcile.py, with the claims of learn flows, the purge of the registry, and what
--     a reconciliation leaves. Times are milliseconds, which are arguments.
--   Migration: migration.py.
--   Icons: icons_suggested.py, with `str.lower` as a parameter.
--   Button: button.py and entity.py. A pass over the platform's buttons is a function on what it
--     has placed and on what it has asked Home Assistant for; Button.Asked and Button.Pass say
--     which buttons it leaves and what it asks for.
--   Devices: devices.py, the devices of the bridge and its targets over a registry that is a
--     parameter.
--   Runtime, Setup: data.py and __init__.py. A World is one bridge's part of Home Assistant;
--     Setup.System makes a step relation of what the integration does to it and what happens
--     around it; Setup.Own is about the replica that is held.
--   Flow: config_flow.py. Flow.Learn is LearnCommandSteps with its LearnCommandFlow,
--     Flow.Command and Flow.Delete are RfClonerOptionsFlow, Flow.Bridge is RfClonerConfigFlow and
--     Flow.Target is TargetSubentryFlow; what a step shows is a FlowResult. A learn is a task that
--     runs beside its flow, on the fuel of the coordinator.
--   Services: services.py.
--   Sensors: sensor.py, binary_sensor.py and the bridge's entities of entity.py.
--   Diagnostics: diagnostics.py.
--   Firmware: the ranges, the budget check, the carrier check, the key hash and the generated
--     setters of components/rf_cloner/__init__.py.
--   Demo: a concrete bridge, host and registry, for the modules named Tests.
--
-- How the parts interact: the coordinator and the snapshot call the transport; a restore runs
-- the transport's actions between two reads of the status; the reconciler prunes the options
-- by Targets and the registry by its own purge. Setup composes them: a poll of the coordinator
-- is followed by the reconciler and by a refresh of the snapshot. The flows and the services
-- start the coordinator's learns, write the entry's options, subentries and data, and claim
-- names in the reconciler.
--
-- Not modelled: logging; translations of errors; the lock that serialises the coordinator's
-- mutations and the interleaving of background tasks, so each operation runs alone; the clock
-- between the commands of one listing, which is read once for all of them; a store that cannot
-- be written; a node or a prefix of an entry that is not a text, which is an error here; the limit
-- of 4300 digits in `int`; numbers with a fraction; units, device classes and categories of
-- entities, which only the frontend reads; the registration of components and automations in
-- the firmware's configuration, which calls ESPHome; and the C++ firmware.
pub mod Base
pub mod Python
pub mod Const
pub mod Models
pub mod Entry
pub mod Targets
pub mod Host
pub mod Transport
pub mod Snapshot
pub mod Restore
pub mod Coordinator
pub mod Registry
pub mod Reconcile
pub mod Migration
pub mod Firmware
pub mod Icons
pub mod Button
pub mod Devices
pub mod Runtime
pub mod Setup
pub mod Demo
pub mod Flow
pub mod Services
pub mod Sensors
pub mod Diagnostics
