-- ===== src/Report/Service.antt =====
-- ReportsService (src/modules/reports/reports.service.ts). Statements are functions on the tables;
-- the clock, drawn UUIDs and the ids that the database draws are arguments. Every id of a user
-- in a row belongs to a row of `users`, which is never deleted.
pub mod Statements
pub mod Write
pub mod Transitions
pub mod Seal
pub mod Run
pub mod Failures
