-- ===== src/Lib.antt =====
-- AI Development OS: a monorepo of TypeScript packages that plan, route, budget and record the work
-- of agents. This library models the parts that hold its state machines and its accounting.
--
-- Parts and files:
--   * Domain (packages/domain/src): money, tokens and usage (Money, Usage, from budget.ts), budgets
--     (Budget), budget accounts (Account, Account/Commands, Account/Admission, from
--     budget-account.ts) and the validators of internal/guards.ts (Guards). An account is a value:
--     `reserveBudget`, `commitReservation`, `releaseReservation`, `cancelReservation` and
--     `cancelBudgetAccount` take a state and return the next one or throw. Here they are functions
--     into `Result` (`reserve_budget`, ...), and what is thrown is a value of `DomainError`.
--   * TaskGraph (packages/task-graph/src): the event-sourced graph of tasks. The private fields of the
--     class `TaskGraph` are the record `Graph` of TaskGraph/Graph; its commands are in
--     TaskGraph/Graph/Planning (before `seal`) and TaskGraph/Graph/Execution (after it), its loop over
--     the pending tasks in TaskGraph/Graph/Reconcile, its snapshots in TaskGraph/Graph/Snapshot, and all
--     its commands as one function in TaskGraph/Graph/Machine. Each command ends in one `#commit`
--     (TaskGraph/Graph/Shapes), and what holds before it of the tasks' states, orders, times and
--     dependencies is carried along there. The
--     order of the tasks is `topological_task_ids` of TaskGraph/Topology, with the binary heap of
--     TaskGraph/Heap; both are translated as loops, heap array and all.
--   * Persistence (packages/persistence/src/outbox-logic.ts): the transitions of a message of the outbox
--     (Persistence/Outbox), and the calls that the adapters make of them as one step
--     (Persistence/Outbox/Lifecycle; packages/persistence-memory/src/memory-adapter.ts).
--   * Router (packages/router/src/circuit.ts): the circuit breaker of a provider. Router/Circuit/State has
--     the state and its parsers, Router/Circuit/Transition has `transitionCircuitBreaker`, and
--     Router/Circuit/Machine the abstract circuit that it implements. Router/Budget
--     (packages/router/src/budget.ts) plans a reservation and its end, which are commands for an
--     account of Domain.
--   * Policy (packages/policy/src/policy.ts, with packages/domain/src/classification.ts and capabilities.ts):
--     the broker. Policy/Model has the rules, requests and decisions, Policy/Rules the loop of `evaluate`
--     over the matching rules and `evaluateDisclosure`, Policy/Checks the checks that follow,
--     Policy/Approvals the approvals and Policy/Broker the decision. The variables that `evaluate`
--     assigns are the record `Judgement`. The rules are taken in the order that the broker keeps.
--   * Persistence/Store (packages/persistence-memory/src/memory-adapter.ts, packages/persistence/src/records.ts):
--     the in-memory store. Store/State has its state, Store/Inputs the validation of what is written,
--     Store/Operations and Store/Messages the operations, which keep what was written before they threw,
--     Store/Paging the lists by pages (cursor.ts), and Store/Transaction `transact`. The work of a
--     transaction is a program that calls operations and may catch what they throw. A payload is its
--     canonical text, and the hash of a text is a parameter. The clock gives a time to each operation, or
--     none for a date that is not valid, which throws where the operation reads it (`read_clock`).
--   * Prelude holds what they share: Boolean tests, lists, texts, and code that throws.
--
-- How values are represented: numbers that the code checks to be integers from 0 on are naturals, and
-- the limits (`Number.MAX_SAFE_INTEGER`, ...) are written out. Versions and the numbers of events and
-- messages are counted on without a bound, where the code's numbers are exact up to 2^53. Priorities
-- are integers. A timestamp is its number of milliseconds. Where the code compares canonical texts,
-- `text_ltb` and `text_leb` of Domain/Instants compare them as it does, also from the year 10000 on,
-- which is written with a sign. A `Map` is the list of its values in the order of insertion, and a
-- change of a shared task is written to that list. The clock is a parameter, a function that sees the
-- graph while it runs and may give no valid time. A command that throws leaves no state: in the code
-- nothing is written before the last check, except by `#reconcilePendingTasks`, whose own check of the
-- order was passed when the dependencies were added.
--
-- Bounds and fuel: `drain`, the loop of `topologicalTaskIds`, has as many rounds as there are tasks: a
-- task is queued at most once, so nothing is left queued unless all tasks are ordered.
-- The loops of the heap move by a level in each round, and have as many rounds as the array is long.
--
-- Not modelled: the checks of prototypes, property descriptors and exact keys, which concern values
-- that are not of the declared type; freezing; the texts of error messages; the parsing of timestamps;
-- the hooks that corrupt a record for tests; the parsers of policy rules and requests, and the
-- fingerprints of plans and decisions; and the other packages (the rest of the router, memory, context,
-- the providers, the SQLite adapter and the rest), some of which only call services or the file system.
pub mod Prelude
pub mod Domain
pub mod TaskGraph
pub mod Persistence
pub mod Router
pub mod Policy
