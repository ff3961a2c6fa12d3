-- ===== src/Fleet.antt =====
-- Placement of sessions on workers (src/apipi/workerhub/fleet.py).
pub mod Choose
pub mod Best
mod Tests
