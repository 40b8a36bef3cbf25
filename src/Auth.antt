-- ===== src/Auth.antt =====
-- pkg/auth: what the authentication handlers share, and the handlers.
pub mod Context
pub mod Login
pub mod Sms
pub mod Sessions
pub mod Token
