-- ===== src/TaskGraph/Graph/Versions.antt =====
-- packages/task-graph/src/task-graph.ts: the version of a graph, the number of its last event and the time
-- of its last change, as the parser of snapshots checks them against its tasks.
use ai_development_os.Prelude.{
  suc, ◌<◌, ◌≤◌, ◌≡◌, refl, subst, inl, inr, String, true, false, Option, List, [], ◌∷◌, ok,
  or_fail, nat_beq, length, Bool-cases, after_ok, ok-injective, arith,
}
use ai_development_os.Domain.Instants.{year_10000}
use ai_development_os.TaskGraph.Types.{Task, Change, Timestamp, GraphStatus, invalid_argument}
use ai_development_os.TaskGraph.Parsing.{assert_identifier}
use ai_development_os.TaskGraph.Graph.{
  Graph, Clock, create, commit, calculate_graph_status, with_status_change, graph_status_code,
}
use ai_development_os.TaskGraph.Graph.Snapshot.{latest_update}
use ai_development_os.TaskGraph.Graph.Machine.{Command, apply}
use ai_development_os.TaskGraph.Graph.Touched.{is_touched, length-snoc, latest_update-is_touched}
use ai_development_os.TaskGraph.Graph.Shapes.{IsWellFormed, IsFiled, IsCommit}
use ai_development_os.TaskGraph.Graph.Steps.{apply-keeps}

pub record IsCounted (g : Graph) : Type 0 where
  pub versions : g.version ≤ g.event_sequence
  pub blank : length g.tasks ≡ 0 → (g.version ≡ 0) × (g.event_sequence ≡ 0) × (g.is_sealed ≡ false)
  pub begun : 1 ≤ length g.tasks → 1 ≤ g.version
  pub closed : g.is_sealed ≡ true → 2 ≤ g.version
  pub last : g.created_at < year_10000 → latest_update g.created_at g.tasks ≡ g.updated_at

with_status_change-length :
    (previous next : GraphStatus) (pending : List Change)
    → length pending ≤ length (with_status_change previous next pending)
with_status_change-length previous next pending =
    elim (Bool-cases (nat_beq (graph_status_code previous) (graph_status_code next))) [
      | inl same ↦ rw same (omega arith)
      | inr other ↦ rw other (length-snoc pending _)
    ]

is_touched-filled :
    (at : Timestamp) (tasks : List Task) → is_touched at tasks ≡ true → 1 ≤ length tasks
is_touched-filled at [] h = absurd (cc h)
is_touched-filled at (t ∷ tasks) h = omega arith

commit-IsCounted :
    (g : Graph) {g' : Graph} (k : IsCommit g g')
    → IsFiled g
    → IsCounted g
    → IsCounted (commit k.base k.timestamp k.previous k.pending)
unfolding commit
commit-IsCounted g k filed c =
    let files = k.filed filed in
    let filled = is_touched-filled k.timestamp k.base.tasks k.touched in
    let moved : Graph = record k.base { version = suc k.base.version; updated_at = k.timestamp } in
    record {
      versions = omega (
        arith,
        c.versions,
        k.keeps.same_version,
        k.keeps.same_sequence,
        k.told,
        with_status_change-length k.previous (calculate_graph_status moved) k.pending,
      );
      blank = λ none. absurd (omega (arith, none, filled));
      begun = λ _. omega arith;
      closed = λ is_closed. elim (k.opened is_closed) [
        | inl before ↦ omega (arith, c.closed before, k.keeps.same_version)
        | inr some_task ↦ omega (arith, c.begun some_task, k.keeps.same_version)
      ];
      last = λ early.
          latest_update-is_touched k.base.created_at k.timestamp k.base.created_at k.base.tasks
            early (ground (arith, early, files.begun)) files.dated k.touched;
    }

pub apply-IsCounted :
    (clock : Clock) (g : Graph) (c : Command) {g' : Graph}
    → IsWellFormed g
    → IsFiled g
    → IsCounted g
    → apply clock g c ≡ ok g'
    → IsCounted g'
apply-IsCounted clock g c w filed before =
    apply-keeps IsCounted clock g c w (λ k. commit-IsCounted g k filed before)
      (λ n. record {
        versions = before.versions;
        blank = before.blank;
        begun = before.begun;
        closed = before.closed;
        last = before.last;
      })
      before

pub create-IsCounted :
    (graph_id project_id : String) (reading : Option Timestamp) {g : Graph}
    → create graph_id project_id reading ≡ ok g
    → IsCounted g
unfolding create latest_update
create-IsCounted graph_id project_id reading h =
    after_ok (or_fail reading invalid_argument) _ h λ at _ h1.
      after_ok (assert_identifier invalid_argument graph_id) _ h1 λ gid _ h2.
        after_ok (assert_identifier invalid_argument project_id) _ h2 λ pid _ e.
          subst IsCounted (ok-injective e) (record {
            versions = omega arith;
            blank = λ _. (refl, refl, refl);
            begun = λ some_task. absurd (omega (arith, some_task));
            closed = λ is_closed. absurd (cc is_closed);
            last = λ early. refl;
          })
