-- ===== src/Auth.antt =====
-- The package auth (auth/auth.go).
pub mod Slug
pub mod Session
pub mod Flash
pub mod Click
mod Tests
