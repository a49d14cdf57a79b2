-- ===== src/Queue.antt =====
-- internal/queue: the events and the tasks.
pub mod Event
pub mod ChatTask
pub mod Broker
pub mod Rabbit
mod Tests
