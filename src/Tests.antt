-- ===== src/Tests.antt =====
-- Concrete runs of the components, and the theorems at concrete inputs.
mod Packets
mod Connection
mod Transport
mod Queue
mod Sessions
mod Sockets
mod Transfers
mod Sharing
mod Files
mod Kcp
mod Urls
