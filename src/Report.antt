-- ===== src/Report.antt =====
-- The reports component: op log, canonical projection and life cycle.
pub mod Json
pub mod Projection
pub mod Lifecycle
pub mod Service
pub mod Consistent
pub mod History
pub mod Tests
