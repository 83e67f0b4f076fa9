-- ===== src/Comms.antt =====
-- sdk/src/comms: what goes over the pipe between the Launcher and the plugin.
pub mod MessageHandler
