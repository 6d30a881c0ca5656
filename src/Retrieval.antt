-- ===== src/Retrieval.antt =====
-- src-tauri/src/retrieval/budget.rs, context.rs and citations.rs: how much of a model's window a prompt
-- may take, and the context that is packed into it.
mod Budget
mod Candidates
mod Overlap
mod Citations
mod Validation
mod Packing
mod Prefixes
mod Promises
mod Duplicates
mod Mandatory
mod Room
mod Ordinals
mod Parts
mod Success
mod PackingExamples
mod Examples
