-- ===== src/Examples.antt =====
-- The theorems at concrete inputs, over the fixtures of src/test and a channel that is a list.
mod Data
mod Boxes
mod Histories
mod Instances
mod Late
mod Ledgers
mod Many
mod Onboarding
mod Queries
mod Services
mod Systems
mod Views
mod Workers
mod Sources
mod Stores
