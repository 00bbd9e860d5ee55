-- ===== src/Perf.antt =====
-- src/perf.hpp: the kernel's interface, its clocks, and the calls that they make.
pub mod Abi
pub mod Sys
pub mod Attr
pub mod KernelClock
pub mod SystemClock
