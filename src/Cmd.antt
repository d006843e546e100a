-- ===== src/Cmd.antt =====
-- The commands of kubergrunt (cmd/).
pub mod Cli
pub mod Common
pub mod Subject
pub mod Eks
pub mod Tags
