-- ===== src/Assist.antt =====
-- The magic `xassist`, src/xmagics/xassist.cpp, by part.
pub mod Escape
pub mod Settings
pub mod History
pub mod Chat
pub mod Command
