-- ===== src/Tool.antt =====
-- tools/bbench.cpp behind the command line.
pub mod Emit
pub mod Main
