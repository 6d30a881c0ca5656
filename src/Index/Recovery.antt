-- ===== src/Index/Recovery.antt =====
-- src-tauri/src/indexing/recovery.rs: the pages that the last run of the application left in work.
mod Loop
mod Pending
mod Completeness
mod Selection
mod Guarantee
mod Examples
