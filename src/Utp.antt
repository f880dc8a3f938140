-- ===== src/Utp.antt =====
-- The uTP stream of utpconn/.
pub mod Seq
pub mod Header
pub mod SelAck
pub mod Tx
pub mod Rx
pub mod Config
pub mod Deadline
pub mod Conn
pub mod Link
