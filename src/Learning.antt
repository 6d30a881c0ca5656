-- ===== src/Learning.antt =====
-- src-tauri/src/learning/registry.rs and src-tauri/src/domain/panel.rs: the registry of the requests
-- that the learner makes, and the records that it hands out.
mod Panel
mod Entry
mod Registry
mod Sound
mod Events
mod Calls
mod Subscribing
mod Lookups
mod Invariant
mod Creation
mod Methods
mod Histories
mod Promises
mod Retention
mod Examples
