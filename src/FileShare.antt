-- ===== src/FileShare.antt =====
-- cmd/file-share: the state behind the user interface of the file sharing program.
pub mod Saver
pub mod Average
pub mod Download
pub mod Transfers
pub mod Files
pub mod Together
pub mod Network
