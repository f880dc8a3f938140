-- ===== src/FileServer.antt =====
-- fileserver: transfers of files, requested by a client and started by a server.
pub mod Client
pub mod Handshake
pub mod Request
pub mod Transfer
pub mod Url
pub mod ServeFs
