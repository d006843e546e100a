-- ===== src/Tests.antt =====
-- Runs of the roll out in a small cluster (eks/deploy.go), and the theorems applied to them.
pub mod World
pub mod Deploy
pub mod Cluster
pub mod Verify
pub mod Images
pub mod Cleanup
pub mod Cmd
pub mod Sync
pub mod Coredns
pub mod Tls
