-- ===== src/Store.antt =====
-- internal/adapters/postgres: the tables, the statements over them and the transactions.
pub mod Session
pub mod Tables
pub mod Batches
pub mod Requests
pub mod Deliveries
pub mod Outbox
pub mod Due
pub mod Outcome
pub mod Atomic
pub mod Consistent
pub mod Cancellation
pub mod Claims
pub mod Insertion
pub mod Promotion
pub mod BatchKeys
pub mod Listing
pub mod System
