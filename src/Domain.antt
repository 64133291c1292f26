-- ===== src/Domain.antt =====
-- packages/domain: the shared vocabulary. Here its monetary, token and usage arithmetic, its budgets
-- and the budget account.
pub mod Errors
pub mod Guards
pub mod Instants
pub mod Money
pub mod Usage
pub mod Budget
pub mod Account
mod Tests
