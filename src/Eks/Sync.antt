-- ===== src/Eks/Sync.antt =====
-- eks/sync.go: `kubergrunt eks sync-core-components`.
pub mod Versions
pub mod Images
pub mod VpcCni
pub mod Components
pub mod Quiet
pub mod InPlace
pub mod UpToDate
pub mod Synced
pub mod Unlisted
