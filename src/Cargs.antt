-- ===== src/Cargs.antt =====
-- src/cargs.hpp: a parser of command lines, on its own.
pub mod Text
pub mod Parser
pub mod Access
