-- ===== src/Memory.antt =====
-- The long-term memories (app/internal/memory).
pub mod Floats
pub mod Lifecycle
pub mod Store
pub mod Prompt
pub mod Edit
