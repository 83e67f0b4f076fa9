-- ===== src/Api/Stream.antt =====
-- sdk/src/api/stream: the streamed responses.
pub mod Sequences
pub mod JobStatus
pub mod Resource
pub mod ResourceManager
pub mod Output
