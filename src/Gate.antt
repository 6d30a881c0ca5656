-- ===== src/Gate.antt =====
-- src-tauri/src/maintenance/gate.rs
mod Defs
mod Ops
mod System
mod Invariant
mod Exclusion
mod Fairness
mod Wakeups
mod Status
mod Examples
