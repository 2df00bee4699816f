-- ===== src/Socket.antt =====
-- The TLS connections of luasocket: ssl.c and context.c, and the buffer in front of them, buffer.c.
-- wolfSSL and the kernel are interfaces or lists of answers.
pub mod Io
pub mod Buffer
pub mod Sni
pub mod Ssl
pub mod Context
mod Tests
