-- ===== src/KeyServer.antt =====
-- crates/key-server/src: the parts of the key server, and how its calls end.
pub mod Errors
pub mod Time
pub mod Common
pub mod Requests
pub mod VersionUpdater
pub mod ValidPtb
pub mod Options
pub mod MasterKeys
