-- ===== src/Security/Auth.antt =====
-- src/bob/security/auth.py: tokens and API keys.
pub mod Jwt
pub mod ApiKeys
