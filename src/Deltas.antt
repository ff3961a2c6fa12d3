-- ===== src/Deltas.antt =====
-- Streamed text: the worker's relay (src/apipi/worker/deltas.py) and the API's check of each delta
-- (src/apipi/workerhub/deltas.py).
pub mod Split
pub mod Relay
pub mod Buffers
pub mod Order
pub mod Numbers
pub mod Hub
pub mod Done
pub mod Ended
mod Tests
