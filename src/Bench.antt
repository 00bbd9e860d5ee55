-- ===== src/Bench.antt =====
-- src/bench.hpp: running a program under a group of counters.
pub mod Wait
pub mod Run
pub mod Dynamic
pub mod Collect
pub mod Static
pub mod Calls
