-- ===== src/Cli.antt =====
-- The command line of tools/bbench.cpp and tools/btime.cpp.
pub mod Number
pub mod Options
pub mod Argv
