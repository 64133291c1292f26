-- ===== src/Persistence/Store.antt =====
-- packages/persistence-memory/src/memory-adapter.ts: the in-memory store. Aggregates are updated under
-- optimistic versions, events are appended under a global sequence, messages are queued in the outbox,
-- and a transaction that fails restores the state that it found.
pub mod State
pub mod Inputs
pub mod Operations
pub mod Messages
pub mod Transaction
pub mod Changes
pub mod Deliveries
pub mod Effects
pub mod Invariant
pub mod Growth
pub mod History
pub mod Claims
pub mod Leases
pub mod Versions
pub mod Paging
pub mod Sequences
pub mod Pages
mod Samples
mod Tests
mod ClaimTests
mod PageTests
