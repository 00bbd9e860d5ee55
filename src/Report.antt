-- ===== src/Report.antt =====
-- src/format.hpp: the reports.
pub mod Sink
pub mod Csv
pub mod Stats
pub mod Human
