-- ===== src/Eks/Deploy/Stages.antt =====
-- Each stage of the roll out (eks/deploy_state.go) keeps the history sound and its state honest.
mod Writes
pub mod Early
pub mod Late
pub use Writes.*
