-- ===== src/Models.antt =====
-- custom_components/rf_cloner/models.py: typed views over the payloads of the bridge's actions.
pub mod CommandInfo
pub mod BridgeStatus
pub mod ExportedCommand
pub mod Names
mod Tests
