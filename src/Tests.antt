-- ===== src/Tests.antt =====
-- The theorems at concrete inputs.
mod Samples
mod Tables
mod Cases
mod Delivering
mod Edges
mod Paging
mod Running
mod Runs
mod Pools
mod Tokens
