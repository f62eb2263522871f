-- ===== src/App/Auth.antt =====
-- internal/app/auth.go: the account endpoints, a module for each.
pub mod Steps
pub mod Registration
pub mod Login
pub mod Passwords
pub mod Account
pub mod Activation
pub mod Google
