-- ===== src/Download.antt =====
-- The headers of a download (src/apipi/store/disposition.py).
pub mod Disposition
pub mod Safe
mod Tests
