-- ===== src/Persistence.antt =====
-- packages/persistence: the state machine of the outbox.
pub mod Outbox
pub mod Store
mod Tests
