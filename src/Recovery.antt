-- ===== src/Recovery.antt =====
-- recovery/recovery_manager.cpp: how a database comes up after a crash.
pub mod Io
pub mod Kinds
pub mod Lsns
pub mod Pages
pub mod Redo
pub mod Analysis
pub mod Undo
