-- ===== src/Consumer.antt =====
-- apps/worker/src/workflow/consumer.ts: the worker's handler of one workflow job.
pub mod Interface
pub mod Syncs
pub mod Details
pub mod Finish
pub mod Keeps
pub mod Advance
pub mod Discards
pub mod Redelivered
pub mod Rounds
pub mod Database
pub mod Verdicts
pub mod Capacity
