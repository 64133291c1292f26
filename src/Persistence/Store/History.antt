-- ===== src/Persistence/Store/History.antt =====
-- packages/persistence-memory/src/memory-adapter.ts: what transactions keep of the past.
use ai_development_os.Prelude.{ℕ, suc, ◌≡◌, refl, String, Option, ok, err, string_eq, nat_eq}
use ai_development_os.Domain.Guards.{Timestamp}
use ai_development_os.Persistence.Store.State.{MemoryState, empty_state, StoreError, key_eq}
use ai_development_os.Persistence.Store.Operations.{Outcome}
use ai_development_os.Persistence.Store.Transaction.{
  execute, Work, returns, throws, calls, run_work, settle, transact,
}
use ai_development_os.Persistence.Store.Changes.{Change, keep, follow}
use ai_development_os.Persistence.Store.Effects.{execute-Change}
use ai_development_os.Persistence.Store.Invariant.{
  IsWellFormed, Change-IsWellFormed, empty_state-IsWellFormed,
}
use ai_development_os.Persistence.Store.Growth.{Grows, Change-Grows}

run_work-Change :
    {A : Type 0} (hash : String → String) (clock : ℕ → Option Timestamp) (n : ℕ) (work : Work A)
    (s : MemoryState)
    → IsWellFormed s
    → Change s (run_work hash clock n work s).1
unfolding run_work
run_work-Change hash clock n (returns a) s w = keep s
run_work-Change hash clock n (throws e) s w = keep s
run_work-Change hash clock n (calls operation next) s w =
    let first = execute-Change hash (clock n) operation s w.message_ids in
    follow s _ _ first (
      run_work-Change hash clock (suc n) (next ((execute hash (clock n) operation s).0))
        ((execute hash (clock n) operation s).1) (Change-IsWellFormed first w))

settle-Change :
    {A : Type 0} (s : MemoryState) (o : Outcome A) → Change s (o.1) → Change s (settle s o).1
settle-Change s (ok a, t) c = c
settle-Change s (err e, t) c = keep s

pub transact-Change :
    {A : Type 0} (hash : String → String) (clock : ℕ → Option Timestamp) (work : Work A)
    (s : MemoryState)
    → IsWellFormed s
    → Change s (transact hash clock work s).1
unfolding transact
transact-Change hash clock work s w = settle-Change s _ (run_work-Change hash clock 0 work s w)

-- The states that transactions lead to, one after the other, from the empty store.
pub data Reachable (hash : String → String) : MemoryState → Type 1 where
  created : Reachable hash empty_state
  transacted :
      (A : Type 0) (clock : ℕ → Option Timestamp) (work : Work A) (s : MemoryState)
      → Reachable hash s
      → Reachable hash (transact hash clock work s).1

-- In every state that transactions lead to from the empty store, whatever they catch, whether they
-- throw and whether the clock fails, the keys of the aggregates and the ids of the events and of the
-- messages are distinct, the events are in the order of their numbers, of which none is above the last
-- one, the messages are numbered from 1 to the last number in their order, and the idempotency keys
-- are distinct and belong to the messages, one to one.
pub Reachable-IsWellFormed :
    (hash : String → String) (s : MemoryState) → Reachable hash s → IsWellFormed s
Reachable-IsWellFormed hash s created = empty_state-IsWellFormed
Reachable-IsWellFormed hash t (transacted A clock work s r) =
    let w = Reachable-IsWellFormed hash s r in
    Change-IsWellFormed (transact-Change hash clock work s w) w

settle-err :
    {A : Type 0} (s : MemoryState) (o : Outcome A) (e : StoreError)
    → (settle s o).0 ≡ err e
    → (settle s o).1 ≡ s
settle-err s (ok a, t) e h = absurd (cc h)
settle-err s (err d, t) e h = refl

rolled_back :
    {A : Type 0} (hash : String → String) (clock : ℕ → Option Timestamp) (work : Work A)
    (s : MemoryState) (e : StoreError)
    → (transact hash clock work s).0 ≡ err e
    → (transact hash clock work s).1 ≡ s
unfolding transact
rolled_back hash clock work s e h = settle-err s (run_work hash clock 0 work s) e h

-- A transaction loses nothing: the events, the idempotency keys, the artifacts and the manifests are
-- those from before, unchanged, and more behind them, so are the messages less the state of their
-- delivery, and an aggregate is still there, created at the same time, at its version or a later one.
-- A transaction that throws changes nothing. Before it the store is well formed.
pub transact-Grows :
    {A : Type 0} (hash : String → String) (clock : ℕ → Option Timestamp) (work : Work A)
    (s : MemoryState)
    → IsWellFormed s
    → Grows s (transact hash clock work s).1
      × ((e : StoreError)
          → (transact hash clock work s).0 ≡ err e
          → (transact hash clock work s).1 ≡ s)
transact-Grows hash clock work s w =
    (Change-Grows (transact-Change hash clock work s w), rolled_back hash clock work s)
