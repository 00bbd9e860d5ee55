-- ===== src/Events.antt =====
-- src/events.hpp: the table of event names, the list behind `-e`, and the events opened from it.
pub mod Table
pub mod List
pub mod Dynamic
