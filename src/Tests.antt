-- ===== src/Tests.antt =====
-- Runs of the definitions on concrete inputs, and the theorems at inputs that meet their hypotheses.
-- `Instances` gives the values that stand for what the source does not implement.
mod Instances
mod Packed
mod Filters
mod Rates
mod Addresses
mod Events
mod Clients
mod Metrics
mod Posts
mod Routes
mod Scans
mod Queries
mod Database
mod Stores
mod Turns
mod Watchers
