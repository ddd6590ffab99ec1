-- ===== src/Apply.antt =====
-- internal/configplan: the transaction that replaces the active configuration.
pub mod Backup
pub mod Files
mod Tests
pub mod Disk
pub mod Transaction
