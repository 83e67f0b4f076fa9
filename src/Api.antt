-- ===== src/Api.antt =====
-- sdk/src/api: jobs, requests, responses and the handlers that connect them.
pub mod User
pub mod Platform
pub mod Parse
pub mod Parts
pub mod Job
pub mod Messages
pub mod Responses
pub mod Queries
pub mod Plugin
pub mod Stream
pub mod Request
pub mod Dispatch
