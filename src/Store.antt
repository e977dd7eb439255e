-- ===== src/Store.antt =====
-- The package store (store/store.go) over the schema of db/migrations/001_init_mysql.sql.
pub mod Stats
pub mod World
pub mod Validate
pub mod Links
pub mod Clicks
pub mod Users
pub mod Reads
pub mod Upsert
pub mod Rollup
pub mod Board
pub mod Reach
mod Tests
