-- ===== src/Eks.antt =====
-- The package eks.
pub mod Instances
pub mod LoadBalancers
pub mod AutoScaling
pub mod Quiet
pub mod Deploy
pub mod CorednsPermissions
pub mod EksBuild
pub mod Drain
pub mod Cleanup
pub mod VerifyCluster
pub mod Sync
pub mod Coredns
