-- ===== src/Tls.antt =====
-- The back ends for HTTPS (src/openssl.c, src/gnutls.c, src/mbedtls.c) over the plain transport. What
-- the TLS libraries answer is a parameter: functions of the calls before.
pub mod Io
pub mod Openssl
pub mod Gnutls
pub mod Mbedtls
pub mod Loops
pub mod Trust
pub mod Live
