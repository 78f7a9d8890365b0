-- ===== src/Tests.antt =====
-- Runs at concrete inputs, and the theorems applied there.
mod Books
mod Engines
mod Trading
mod Indexes
mod Levels
mod Ladders
mod Queues
mod Pools
mod Numbers
