-- ===== src/Turns.antt =====
-- Turns, items, events and session status, as the ingest writes them (`_validate` and `_apply` of
-- src/apipi/services/ingest.py over src/apipi/store/repo.py).
pub mod Store
pub mod Validate
pub mod Apply
pub mod Branches
pub mod Running
pub mod Keeps
pub mod Same
pub mod Cache
pub mod Flush
mod Tests
