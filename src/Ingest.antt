-- ===== src/Ingest.antt =====
-- The API's ingest of worker envelopes (services/ingest.py, workerhub/serve.py).
pub mod Batch
pub mod Batcher
pub mod Acks
pub mod Retry
pub mod Once
pub mod Serve
pub mod Attempts
mod Tests
