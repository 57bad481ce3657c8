-- ===== src/Database.antt =====
-- pkg/database/database.go
pub mod Ddl
pub mod Apply
pub mod Tests
pub mod Plan
pub mod Outcome
pub mod Address
