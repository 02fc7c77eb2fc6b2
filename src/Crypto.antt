-- ===== src/Crypto.antt =====
-- crypto/rtw_crypto.c: SHA-1, HMAC-SHA1 and PBKDF2.
pub mod Sha1
pub mod Aes
pub mod Hmac
pub mod Pbkdf2
