-- ===== src/TaskGraph/Graph/Lasting.antt =====
-- packages/task-graph/src/task-graph.ts: what a write of one task keeps of what
-- `validateHydratedTaskStates` asks of the others.
use ai_development_os.Prelude.{
  ◌≡◌, refl, sym, ◌∙◌, ap, subst, inl, inr, String, true, false, ◌&&◌, Option, none, some, List, [],
  ◌∷◌, string_eq, contains, Bool-cases, Option-cases, Eq-cases, arith,
}
use ai_development_os.TaskGraph.Types.{
  Task, is_terminal, is_pending, is_succeeded, is_unsuccessful, is_blocked,
}
use ai_development_os.TaskGraph.Graph.{get_task, put_task}
use ai_development_os.TaskGraph.Graph.Reconcile.{lookup_all, blockers}
use ai_development_os.TaskGraph.Graph.Snapshot.{needs_success, has_valid_blockers}
use ai_development_os.TaskGraph.Graph.Moves.{get-put-other, get-put-same}
use ai_development_os.TaskGraph.Graph.States.{
  all_succeeded, is_lasting, is_consistent-of_is_lasting, is_consistent-parts, AreLasting,
  AreConsistent, AreConsistent-AreLasting, found_before, lookup_all-cons, blockers-cons, all-more,
}

live-succeeded : (t : Task) → is_terminal t.status ≡ false → is_succeeded t.status ≡ false
live-succeeded t h = ground (arith, h)

live-unsuccessful : (t : Task) → is_terminal t.status ≡ false → is_unsuccessful t.status ≡ false
live-unsuccessful t h = ground (arith, h)

-- A task `c` is written over the task `s`, which has not ended.
module _ (tasks : List Task) (c s : Task) (found : get_task tasks c.id ≡ some s)
    (alive : is_terminal s.status ≡ false) where
  -- What a lookup finds after the write.
  put-cases :
      (P : Option Task → Option Task → Type 0) (d : String)
      → P none none
      → ((u : Task) → P (some u) (some u))
      → P (some s) (some c)
      → P (get_task tasks d) (get_task (put_task tasks c) d)
  put-cases P d absent kept written = elim (Eq-cases c.id d) [
    | inl (same, _) ↦
        subst (λ j. P (get_task tasks j) (get_task (put_task tasks c) j)) same
          (rw (found, get-put-same tasks c found) written)
    | inr (apart, _) ↦ rw (get-put-other tasks c d apart) elim (Option-cases (get_task tasks d)) [
      | inl gone ↦ rw gone absent
      | inr (u, there) ↦ rw there (kept u)
    ]
  ]

  -- Dependencies that have all succeeded are not touched.
  lookup_all-succeeded :
      (ds : List String)
      → all_succeeded (lookup_all tasks ds) ≡ true
      → lookup_all (put_task tasks c) ds ≡ lookup_all tasks ds
  unfolding lookup_all
  lookup_all-succeeded [] h = refl
  lookup_all-succeeded (d ∷ ds) h =
      rw (lookup_all-cons (put_task tasks c) d ds, lookup_all-cons tasks d ds)
        (put-cases
          (λ before after.
            all_succeeded (found_before before (lookup_all tasks ds)) ≡ true
            → found_before after (lookup_all (put_task tasks c) ds)
              ≡ found_before before (lookup_all tasks ds))
          d (λ e. lookup_all-succeeded ds e)
          (λ u e. ap (λ l. u ∷ l) (lookup_all-succeeded ds (ground (arith, e))))
          (λ e. absurd (ground (arith, e, alive))) (rw (lookup_all-cons tasks d ds) at h))

  -- What blocks a task still blocks it.
  blockers-put :
      (ds : List String) (i : String)
      → contains (blockers (lookup_all tasks ds)) i ≡ true
      → contains (blockers (lookup_all (put_task tasks c) ds)) i ≡ true
  unfolding lookup_all
  blockers-put [] i h = h
  blockers-put (d ∷ ds) i h = rw (lookup_all-cons (put_task tasks c) d ds) (
      put-cases
        (λ before after.
          contains (blockers (found_before before (lookup_all tasks ds))) i ≡ true
          → contains (blockers (found_before after (lookup_all (put_task tasks c) ds))) i ≡ true)
        d (blockers-put ds i)
        (λ u e.
          rw (blockers-cons u (lookup_all (put_task tasks c) ds) i)
            (ground (arith, blockers-put ds i, rw (blockers-cons u (lookup_all tasks ds) i) at e)))
        (λ e. rw (blockers-cons c (lookup_all (put_task tasks c) ds) i) (
          ground
            (arith, alive, blockers-put ds i, rw (blockers-cons s (lookup_all tasks ds) i) at e)))
        (rw (lookup_all-cons tasks d ds) at h))

  has_valid_blockers-put :
      (ds : List String) (t : Task)
      → has_valid_blockers (blockers (lookup_all tasks ds)) t ≡ true
      → has_valid_blockers (blockers (lookup_all (put_task tasks c) ds)) t ≡ true
  has_valid_blockers-put ds t h = elim (Bool-cases (is_blocked t.status)) [
    | inr other ↦ rw other (rw other at h)
    | inl stopped ↦ rw stopped (
        ground (
          arith,
          rw stopped at h,
          all-more (λ i. contains (blockers (lookup_all tasks ds)) i)
              (λ i. contains (blockers (lookup_all (put_task tasks c) ds)) i) t.blocked_by
              (blockers-put ds),
        ))
  ]

  is_lasting-put :
      (t : Task)
      → is_lasting (lookup_all tasks t.dependencies) t ≡ true
      → is_lasting (lookup_all (put_task tasks c) t.dependencies) t ≡ true
  is_lasting-put t h =
      let blocks = has_valid_blockers-put t.dependencies t (ground (arith, h)) in
      elim (Bool-cases (needs_success t.status)) [
        | inr idle ↦ ground (arith, h, idle, blocks)
        | inl needs ↦
            let done : all_succeeded (lookup_all tasks t.dependencies) ≡ true =
              ground (arith, h, needs) in
            let same = lookup_all-succeeded t.dependencies done in
            subst (λ l. is_lasting l t ≡ true) (sym same) h
      ]

  -- A write of a task that is right itself.
  pub put-AreLasting :
      is_lasting (lookup_all tasks c.dependencies) c ≡ true
      → AreLasting tasks
      → AreLasting (put_task tasks c)
  put-AreLasting new all_last i t there = elim (Eq-cases c.id i) [
    | inl (same, _) ↦
        let written : c ≡ t = cc (
          get-put-same tasks c found,
          subst (λ j. get_task (put_task tasks c) j ≡ some t) (sym same) there,
        ) in
        is_lasting-put t
          (subst (λ (u : Task). is_lasting (lookup_all tasks u.dependencies) u ≡ true) written new)
    | inr (apart, _) ↦ is_lasting-put t (all_last i t (sym (get-put-other tasks c i apart) ∙ there))
  ]

  -- A write of a task that goes on leaves the others as they were.
  lookup_all-going :
      is_terminal c.status ≡ false
      → (ds : List String)
      → (all_succeeded (lookup_all (put_task tasks c) ds) ≡ all_succeeded (lookup_all tasks ds))
        × (blockers (lookup_all (put_task tasks c) ds) ≡ blockers (lookup_all tasks ds))
  unfolding lookup_all
  lookup_all-going going [] = (refl, refl)
  lookup_all-going going (d ∷ ds) =
      let (same, same') = lookup_all-going going ds in
      rw (lookup_all-cons (put_task tasks c) d ds, lookup_all-cons tasks d ds)
        (put-cases
          (λ before after.
            (all_succeeded (found_before after (lookup_all (put_task tasks c) ds))
              ≡ all_succeeded (found_before before (lookup_all tasks ds)))
            × (blockers (found_before after (lookup_all (put_task tasks c) ds))
                ≡ blockers (found_before before (lookup_all tasks ds))))
          d (same, same')
          (λ u. (
            ap (λ b. is_succeeded u.status && b) same,
            elim (Bool-cases (is_unsuccessful u.status)) [
              | inl stops ↦ rw stops (ap (λ l. u.id ∷ l) same')
              | inr other ↦ rw other same'
            ],
          ))
          (rw
            (
              live-succeeded c going,
              live-succeeded s alive,
              live-unsuccessful c going,
              live-unsuccessful s alive,
            )
            (refl, same')))

  -- A task that went on goes on, and all are right as before.
  pub put-AreConsistent :
      is_terminal c.status ≡ false
      → is_pending c.status ≡ false
      → is_lasting (lookup_all tasks c.dependencies) c ≡ true
      → AreConsistent tasks
      → AreConsistent (put_task tasks c)
  put-AreConsistent going awake new all_right i t there =
      is_consistent-of_is_lasting (lookup_all (put_task tasks c) t.dependencies) t
        (elim (Eq-cases c.id i) [
          | inl (same, _) ↦
              let written : c ≡ t = cc (
                get-put-same tasks c found,
                subst (λ j. get_task (put_task tasks c) j ≡ some t) (sym same) there,
              ) in
              rw (subst (λ (u : Task). is_pending u.status ≡ false) written awake) refl
          | inr (apart, _) ↦
              let (succeed, stop) = lookup_all-going going t.dependencies in
              let before = sym (get-put-other tasks c i apart) ∙ there in
              rw (succeed, stop)
                (is_consistent-parts (lookup_all tasks t.dependencies) t (all_right i t before)).0
        ])
        (put-AreLasting new (AreConsistent-AreLasting tasks all_right) i t there)
