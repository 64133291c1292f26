-- ===== src/TaskGraph/Graph/Filed.antt =====
-- packages/task-graph/src/task-graph.ts: the numbers and times of the tasks, and their dependencies, as
-- the parser of snapshots checks them; a command of a sealed graph keeps them.
use ai_development_os.Prelude.{
  ℕ, suc, ◌≡◌, refl, sym, ◌∙◌, ap, inl, inr, String, Bool, true, ◌&&◌, List, [], ◌∷◌, all, contains,
  length, string_eq, arith,
}
use ai_development_os.Domain.Instants.{text_leb}
use ai_development_os.TaskGraph.Types.{Task, Timestamp}
use ai_development_os.TaskGraph.Topology.Counting.{ids}
use ai_development_os.TaskGraph.Graph.Snapshot.{is_contiguous}
use ai_development_os.TaskGraph.Graph.Keeping.{Kept, AllKept, AllKept-ids}

-- The task is created after the graph, and changed last before the graph, as texts are compared.
abbrev pub is_dated : Timestamp → Timestamp → Task → Bool
is_dated start now t =
    text_leb start t.created_at && (text_leb t.created_at t.updated_at && text_leb t.updated_at now)

abbrev pub is_known : List String → Task → Bool
is_known known t = all (λ d. contains known d) t.dependencies

-- The tasks are numbered from 0, and depend on each other only.
pub record AreFiled (start now : Timestamp) (next : ℕ) (tasks : List Task) : Type 0 where
  pub begun : text_leb start now ≡ true
  pub contiguous : is_contiguous 0 tasks ≡ true
  pub counted : next ≡ length tasks
  pub dated : all (is_dated start now) tasks ≡ true
  pub known : all (is_known (ids tasks)) tasks ≡ true

AllKept-is_contiguous :
    (at : Timestamp) (ss ts : List Task) (n : ℕ)
    → AllKept at ss ts
    → is_contiguous n ss ≡ true
    → is_contiguous n ts ≡ true
unfolding is_contiguous
AllKept-is_contiguous at [] [] n f h = refl
AllKept-is_contiguous at [] (t ∷ ts) n f h = absurd f
AllKept-is_contiguous at (s ∷ ss) [] n f h = absurd f
AllKept-is_contiguous at (s ∷ ss) (t ∷ ts) n f h =
    rw f.0.same_order (ground (arith, h, AllKept-is_contiguous at ss ts (suc n) f.1))

AllKept-length : (at : Timestamp) (ss ts : List Task) → AllKept at ss ts → length ts ≡ length ss
AllKept-length at [] [] f = refl
AllKept-length at [] (t ∷ ts) f = absurd f
AllKept-length at (s ∷ ss) [] f = absurd f
AllKept-length at (s ∷ ss) (t ∷ ts) f = ap suc (AllKept-length at ss ts f.1)

module _ (at start now : Timestamp) (later : text_leb now at ≡ true) where
  Kept-is_dated :
      (s t : Task) → Kept at s t → is_dated start now s ≡ true → is_dated start at t ≡ true
  Kept-is_dated s t k h = elim k.dated [
    | inl same ↦ rw same (ground (arith, later, h))
    | inr new ↦ rw (k.same_start, new) (ground (arith, later, h))
  ]

  pub AllKept-dated :
      (ss ts : List Task)
      → AllKept at ss ts
      → all (is_dated start now) ss ≡ true
      → all (is_dated start at) ts ≡ true
  AllKept-dated [] [] f h = refl
  AllKept-dated [] (t ∷ ts) f h = absurd f
  AllKept-dated (s ∷ ss) [] f h = absurd f
  AllKept-dated (s ∷ ss) (t ∷ ts) f h =
      ground (arith, h, Kept-is_dated s t f.0, AllKept-dated ss ts f.1)

AllKept-known :
    (at : Timestamp) (known : List String) (ss ts : List Task)
    → AllKept at ss ts
    → all (is_known known) ss ≡ true
    → all (is_known known) ts ≡ true
AllKept-known at known [] [] f h = refl
AllKept-known at known [] (t ∷ ts) f h = absurd f
AllKept-known at known (s ∷ ss) [] f h = absurd f
AllKept-known at known (s ∷ ss) (t ∷ ts) f h =
    rw f.0.same_dependencies (ground (arith, h, AllKept-known at known ss ts f.1))

-- A command of a sealed graph.
pub AllKept-AreFiled :
    (at start now : Timestamp) (next : ℕ) (ss ts : List Task)
    → text_leb now at ≡ true
    → AllKept at ss ts
    → AreFiled start now next ss
    → AreFiled start at next ts
AllKept-AreFiled at start now next ss ts later k f = record {
  begun = ground (arith, later, f.begun);
  contiguous = AllKept-is_contiguous at ss ts 0 k f.contiguous;
  counted = f.counted ∙ sym (AllKept-length at ss ts k);
  dated = AllKept-dated at start now later ss ts k f.dated;
  known = rw (AllKept-ids at ss ts k) (AllKept-known at (ids ss) ss ts k f.known);
}
