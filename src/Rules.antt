-- ===== src/Rules.antt =====
-- internal/rules: rule packs, the user's selection, and the Mihomo fragment rendered from them.
pub mod Data
pub mod Line
pub mod Target
pub mod Group
pub mod Fragment
mod Tests
