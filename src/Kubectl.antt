-- ===== src/Kubectl.antt =====
-- The package kubectl.
pub mod Options
pub mod Config
pub mod Command
pub mod Nodes
pub mod Services
pub mod Quiet
