-- ===== src/Corerun.antt =====
-- internal/corerun: finding, stopping and restarting the Mihomo core.
mod Tests
pub mod Process
pub mod Stop
pub mod Options
pub mod Reload
pub mod Restart
