-- ===== src/Sse.antt =====
-- src-tauri/src/ai/stream.rs: the bounded reader of server-sent events, and the decoder above it.
mod Scanner
mod Bounds
mod Format
mod Lines
mod Decoder
mod Delivery
mod Completion
mod Examples
