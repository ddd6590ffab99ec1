-- ===== src/Patch.antt =====
-- internal/configpatch/patch.go: the registry of configuration patches.
mod Tests
pub mod OrderId
pub mod Data
pub mod Registry
pub mod Preview
pub mod Compile
pub mod Inventory
