-- ===== src/Files.antt =====
-- The storage of files: internal/service/file_management.go.
pub mod Pick
pub mod Blocks
pub mod Coding
pub mod Slots
pub mod Encrypt
pub mod Reconstruct
pub mod Sending
pub mod Workers
pub mod StreamAndUpload
