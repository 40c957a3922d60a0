-- ===== src/ModelClaim/Controller.antt =====
-- controller.go. One pass of the reconcile loop is an action on the controller's own state (the
-- resolve cache, the last events and the log of the calls that it has made). What the API server,
-- the informer caches and the resolver answer during the pass is a parameter, `Env`.
pub mod Act
pub mod Env
pub mod ModelRef
pub mod Events
pub mod Resolve
pub mod Status
pub mod Report
pub mod Sync
pub mod Verdict
pub mod Reconcile
pub mod Conditions
pub mod Writes
pub mod Retry
pub mod Watch
pub mod Run
pub mod Memory
pub mod Satisfied
