-- ===== src/Examples.antt =====
-- The theorems applied at concrete inputs, by the parts of the repository that they are about.
mod Data
mod Workers
mod Loops
mod Windows
mod Throttling
mod Sliding
mod Util
mod Brokers
mod Stores
mod Composed
mod Chains
mod Mazes
mod Reversals
mod Uploads
mod Fleet
mod Parallel
