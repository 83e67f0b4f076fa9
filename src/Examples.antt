-- ===== src/Examples.antt =====
-- The theorems at concrete inputs.
mod Framing
mod Jobs
mod Handlers
mod Requests
mod Streams
mod Profiles
mod Responses
mod Local
mod Dispatch
