-- ===== src/Tests.antt =====
-- The theorems at concrete inputs, and runs of the code.
mod Amounts
mod Streams
mod Ladders
mod Routes
mod Reads
mod Runs
mod Claims
mod Actions
mod Builders
mod Queues
mod Watches
mod Refreshes
