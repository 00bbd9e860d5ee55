-- ===== src/Clock.antt =====
-- src/clock.hpp: the counters of the library by name, and groups of them.
pub mod Kinds
pub mod Group
pub mod Stopwatch
