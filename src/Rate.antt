-- ===== src/Rate.antt =====
-- The per-second budget of src/apipi/common/ratelimit.py.
pub mod Budget
mod Tests
