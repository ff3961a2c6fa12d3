-- ===== src/Leases.antt =====
-- Leases of sessions: the rows that hold them (src/apipi/store/repo.py) and the comparison with what
-- a worker reports (src/apipi/workerhub/inventory.py).
pub mod Rows
pub mod Inventory
pub mod Exclusive
pub mod Orphans
pub mod Revokes
mod Tests
