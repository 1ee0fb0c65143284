-- ===== src/Audit.antt =====
-- The audit log (src/modules/audit/audit.service.ts, src/modules/audit/anchor.service.ts).
pub mod Canonical
pub mod Log
pub mod Chain
pub mod Export
pub mod Tests
