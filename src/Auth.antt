-- ===== src/Auth.antt =====
-- Pre-shared-key authentication, src/auth.rs: hexadecimal text, HMAC, and the token with its two
-- checks, of the first line of a connection and of the gateway's bearer header.
pub mod Hex
pub mod Hmac
pub mod Token
