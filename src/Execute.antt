-- ===== src/Execute.antt =====
-- contracts/hub/src/execute.rs: the handlers. A handler takes the storage and returns the new one
-- with its response, or an error, after which the chain keeps the old storage.
pub mod Instantiate
pub mod Bond
pub mod Harvest
pub mod Unbond
pub mod Reconcile
pub mod Withdraw
pub mod Manage
pub mod Mining
pub mod Reply
