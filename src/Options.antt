-- ===== src/Options.antt =====
-- sdk/src/options: the values that an administrator gives for users and groups.
pub mod Errors
pub mod Values
pub mod UserProfiles
