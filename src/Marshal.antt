-- ===== src/Marshal.antt =====
-- internal/driver/ttc/marshal_engine.go: the TTC marshal engine.
pub mod Engine
pub mod Stream
pub mod Universal
pub mod Clr
pub mod Sequence
mod Runs
pub mod UniversalCode
