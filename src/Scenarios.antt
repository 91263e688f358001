-- ===== src/Scenarios.antt =====
-- Concrete runs of the worker's code: the theorems at states where their hypotheses hold.
mod Data
mod Payloads
mod Plans
mod Guards
mod Settings
mod Stores
mod Workers
mod Deliveries
mod Operations
mod Comments
mod Webhooks
mod Clusters
mod Promises
