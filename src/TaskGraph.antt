-- ===== src/TaskGraph.antt =====
-- packages/task-graph: the durable graph of tasks, its topology, its state machine and its snapshots.
pub mod Json
pub mod Limits
pub mod Types
pub mod Heap
pub mod Topology
pub mod Parsing
pub mod Graph
mod Samples
mod OrderTests
mod Tests
mod HydrationTests
