-- ===== src/Pool.antt =====
-- The pool of sandbox processes of a worker (src/apipi/worker/pi/pool.py).
pub mod State
pub mod Ops
pub mod Run
pub mod Load
pub mod Fits
pub mod Capacity
pub mod Leases
mod Tests
