-- ===== src/Commands.antt =====
-- Commands from the API to a worker: the queue of unacked ones, and the worker's duplicate check.
pub mod Queue
pub mod Bounds
pub mod Acks
pub mod Dedupe
pub mod Repeats
mod Tests
