-- ===== src/Tests.antt =====
-- Runs of the definitions, and the theorems at concrete inputs.
mod Machine
mod Cli
mod Perf
mod Events
mod Groups
mod Runs
mod Dynamic
mod Report
mod Static
mod Programs
mod Cargs
