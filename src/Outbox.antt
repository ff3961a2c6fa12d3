-- ===== src/Outbox.antt =====
-- worker/outbox.py: the worker's buffer of durable envelopes.
pub mod State
pub mod Spool
pub mod Ops
pub mod Load
pub mod Trim
pub mod Valid
pub mod Keeps
pub mod Ends
pub mod Run
pub mod Spec
pub mod Moves
pub mod Refines
pub mod Lossless
mod Tests
