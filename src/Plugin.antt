-- ===== src/Plugin.antt =====
-- The plugin half of a module, src/plugin/mnm_plugin.cpp, which runs on the audio callback.
pub mod Params
pub mod Convert
pub mod Instance
pub mod Replay
pub mod State
pub mod Entry
pub mod Template
pub mod Audio
pub mod Supervisor
pub mod Query
pub mod Catalog
pub mod Tests
