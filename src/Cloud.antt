-- ===== src/Cloud.antt =====
-- What the program talks to: the data that passes between it and AWS, Kubernetes and the file
-- system, the requests it makes, and the monad in which its code runs.
pub mod Types
pub mod Failure
pub mod Request
pub mod Monad
pub mod Retry
pub mod Quiet
pub mod Runs
pub mod Returns
pub mod Yields
pub mod Keeps
pub mod Triple
pub mod Answered
pub mod Lasting
pub mod Retried
pub mod Fallible
pub mod Only
pub mod Collections
