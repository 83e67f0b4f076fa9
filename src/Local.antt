-- ===== src/Local.antt =====
-- plugins/Local: the plugin that runs jobs as processes of its own host.
pub mod Errors
pub mod Processes
pub mod JobRepository
pub mod JobRunner
pub mod JobSource
