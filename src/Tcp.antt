-- ===== src/Tcp.antt =====
-- The plain transport (src/tcp.c, include/tcp.h), over the socket calls of the system. Without TLS it
-- is what ssl_open, ssl_send, ssl_recv and ssl_close of include/ssl.h stand for.
mod Defs
pub mod Init
pub mod Recv
unfoldable pub use Defs.*
