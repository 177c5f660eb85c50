-- ===== src/Ssl.antt =====
-- src/neo/io/openssl: the OpenSSL engine and context.
pub mod Calls
pub mod Engine
pub mod Stream
pub mod Context
pub mod Ownership
pub mod Bindings
pub mod Errors
pub mod Init
