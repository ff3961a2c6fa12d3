-- ===== src/Writer.antt =====
-- The writer of a worker's socket (src/apipi/workerhub/writer.py).
pub mod Queue
pub mod Order
mod Tests
