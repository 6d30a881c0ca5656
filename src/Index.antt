-- ===== src/Index.antt =====
-- src-tauri/src/indexing/state.rs and src-tauri/src/db/indexing.rs: the runs and pages of the
-- AI index.
mod Status
mod Rows
mod Pages
mod PageOps
mod Statements
mod Integrity
mod Safety
mod Staleness
mod Fencing
mod Aggregate
mod Codes
mod Texts
mod Runs
mod Creation
mod Births
mod Endings
mod Registry
mod Recovery
mod Examples
