-- ===== src/Types.antt =====
-- pkg/database/types: the dialect-neutral mirror of keys, indexes, foreign keys and columns.
pub mod Canonical
pub mod Exclusions
pub mod Names
pub mod Columns
pub mod Keys
pub mod Policies
pub mod Tests
pub mod Indexes
pub mod ForeignKeys
pub mod Spec
