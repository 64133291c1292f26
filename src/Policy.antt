-- ===== src/Policy.antt =====
-- packages/policy/src/policy.ts: the broker that decides whether an action is allowed, on rules and
-- requests that their parsers accepted.
pub mod Model
pub mod Rules
pub mod Checks
pub mod Approvals
pub mod Broker
pub mod Clearance
pub mod Demands
pub mod Heeding
pub mod Decisions
pub mod Permission
pub mod Disclosure
pub mod Denial
mod Tests
