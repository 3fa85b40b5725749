-- ===== src/Agenda.antt =====
-- The agenda (internal/engine/agenda.go).
pub mod Heap
pub mod Activation
pub mod Modules
mod Tests
