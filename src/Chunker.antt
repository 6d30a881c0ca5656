-- ===== src/Chunker.antt =====
-- src-tauri/src/retrieval/chunker.rs: the cutting of a book's text into overlapping search chunks.
mod Floats
mod Defs
mod Boundaries
mod Loop
mod Book
mod Gather
mod Sections
mod Coverage
mod Progress
mod Stalls
mod Examples
