-- ===== src/Router/Circuit.antt =====
-- packages/router/src/circuit.ts: the state of a circuit breaker, its parser and its transition.
-- SHA-256 and the canonical text that it digests are parameters, the record `Digest`.
pub mod Time
pub mod State
pub mod Transition
pub mod Parsing
pub mod Machine
pub mod Sealing
pub mod Phases
pub mod Memory
pub mod Progress
pub mod Retries
pub mod Recovery
