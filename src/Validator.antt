-- ===== src/Validator.antt =====
-- src-tauri/src/indexing/validator.rs: the checks of a page analysis that a model returns.
mod Texts
mod Tables
mod Grids
mod Groups
mod Examples
