-- ===== src/Router.antt =====
-- packages/router: how a provider is chosen for an operation. Here its circuit breaker.
pub mod Shared
pub mod Circuit
mod Tests
pub mod Budget
