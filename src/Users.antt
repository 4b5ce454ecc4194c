-- ===== src/Users.antt =====
-- server/app/users.
pub mod Email
pub mod Accounts
