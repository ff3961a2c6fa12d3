-- ===== src/Egress.antt =====
-- The egress gateway of a worker's sandboxes (src/apipi/worker/egress/).
pub mod Bytes
pub mod Dns
pub mod Query
pub mod Filter
pub mod Reply
pub mod Policy
pub mod Decide
pub mod Hello
pub mod Records
mod Tests
mod HelloTests
mod PolicyTests
