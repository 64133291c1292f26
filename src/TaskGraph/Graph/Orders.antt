-- ===== src/TaskGraph/Graph/Orders.antt =====
-- packages/task-graph/src/task-graph.ts: the tasks of a graph can be ordered, whatever becomes of them.
use ai_development_os.Prelude.{
  ℕ, ◌≡◌, refl, sym, ◌∙◌, ap, inl, inr, String, List, [], ◌∷◌, map, ok, ◌==◌, string_eq, Bool-cases,
}
use ai_development_os.TaskGraph.Types.{Task, Timestamp, cyclic_dependency, graph_limit_exceeded}
use ai_development_os.TaskGraph.Topology.{topological_task_ids, assert_graph_edge_limit}
use ai_development_os.TaskGraph.Topology.Erasure.{erase, topological_task_ids-map, check_edges-map}
use ai_development_os.TaskGraph.Graph.{put_task}
use ai_development_os.TaskGraph.Graph.Keeping.{AllKept, constants}

-- `topologicalTaskIds` orders the tasks, and they have no more dependencies than are allowed.
abbrev pub AreOrderable : List Task → Type 0
AreOrderable tasks =
    ((out : List String) × (topological_task_ids cyclic_dependency graph_limit_exceeded tasks
        ≡ ok out))
    × (assert_graph_edge_limit graph_limit_exceeded tasks ≡ ok tt)

erased-AreOrderable :
    (ss ts : List Task) → map erase ts ≡ map erase ss → AreOrderable ss → AreOrderable ts
unfolding assert_graph_edge_limit
erased-AreOrderable ss ts same ((out, sorted), few) = (
  (
    out,
    sym (topological_task_ids-map cyclic_dependency graph_limit_exceeded ts)
        ∙ ap (topological_task_ids cyclic_dependency graph_limit_exceeded) same
        ∙ topological_task_ids-map cyclic_dependency graph_limit_exceeded ss
        ∙ sorted,
  ),
  sym (check_edges-map graph_limit_exceeded 0 ts)
      ∙ ap (λ us. assert_graph_edge_limit graph_limit_exceeded us) same
      ∙ check_edges-map graph_limit_exceeded 0 ss
      ∙ few,
)

same_constants : (s t : Task) → constants s ≡ constants t → erase s ≡ erase t
same_constants s t e =
    ap
      (λ (c : String × List String × ℕ × Timestamp).
        erase (record t { id = c.0; dependencies = c.1; order = c.2 }))
      e

AllKept-erase :
    (at : Timestamp) (ss ts : List Task) → AllKept at ss ts → map erase ts ≡ map erase ss
AllKept-erase at [] [] f = refl
AllKept-erase at [] (t ∷ ts) f = absurd f
AllKept-erase at (s ∷ ss) [] f = absurd f
AllKept-erase at (s ∷ ss) (t ∷ ts) f = cc (
  same_constants t s (cc (f.0.same_id, f.0.same_dependencies, f.0.same_order, f.0.same_start)),
  AllKept-erase at ss ts f.1,
)

pub AllKept-AreOrderable :
    (at : Timestamp) (ss ts : List Task) → AllKept at ss ts → AreOrderable ss → AreOrderable ts
AllKept-AreOrderable at ss ts kept = erased-AreOrderable ss ts (AllKept-erase at ss ts kept)

put-erase :
    (tasks : List Task) (c d : Task)
    → constants c ≡ constants d
    → map erase (put_task tasks c) ≡ map erase (put_task tasks d)
put-erase [] c d same = refl
put-erase (s ∷ tasks) c d same =
    let at : (s.id == c.id) ≡ (s.id == d.id) = ap (λ k. s.id == k.0) same in
    elim (Bool-cases (s.id == d.id)) [
      | inl hit ↦ rw (hit, at ∙ hit) (cc (same_constants c d same, put-erase tasks c d same))
      | inr miss ↦ rw (miss, at ∙ miss) (ap (λ l. erase s ∷ l) (put-erase tasks c d same))
    ]

-- A write of a task with the same dependencies as one that was tried.
pub put-AreOrderable :
    (tasks : List Task) (c d : Task)
    → constants c ≡ constants d
    → AreOrderable (put_task tasks d)
    → AreOrderable (put_task tasks c)
put-AreOrderable tasks c d same =
    erased-AreOrderable (put_task tasks d) (put_task tasks c) (put-erase tasks c d same)
