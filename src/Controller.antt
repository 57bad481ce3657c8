-- ===== src/Controller.antt =====
-- pkg/controller
pub mod Migration
pub mod Tests
mod Outcomes
pub mod Batch
pub mod Table
