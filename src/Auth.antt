-- ===== src/Auth.antt =====
-- internal/auth/auth.go: keys, their cache, and the validation of tokens.
pub mod Keys
pub mod Tokens
pub mod Context
