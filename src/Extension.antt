-- ===== src/Extension.antt =====
-- src/: the extension itself, as far as it does not call the server.
pub mod Client
