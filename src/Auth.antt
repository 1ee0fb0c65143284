-- ===== src/Auth.antt =====
-- Sign-in and tokens (src/modules/auth).
pub mod Tokens
pub mod SignIn
pub mod Enrolment
pub mod Tests
