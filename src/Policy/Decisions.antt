-- ===== src/Policy/Decisions.antt =====
-- packages/policy/src/policy.ts: what a decision that allows an action has checked.
use ai_development_os.Prelude.{
  ◌≡◌, ◌≢◌, refl, sym, ◌∙◌, ap, Bool, true, false, not, Option, none, some, List, [], ◌∷◌, ◌++◌,
  All, any, filter, find?, find?-sound, arith, inl, inr, Bool-cases,
}
use ai_development_os.Domain.Guards.{Timestamp}
use ai_development_os.Policy.Model.{
  redaction_rank, includes, RedactionKind, personal_data, proprietary_identifiers, secrets,
  ApprovalEvidence, PolicyRequest, ApprovalRequirement,
}
use ai_development_os.Policy.Rules.{Judgement, deny_if}
use ai_development_os.Policy.Approvals.{
  Approvals, refuses, grants, is_model, weigh_evidence, weigh_approval, weigh_approvals,
  is_reusable,
}
use ai_development_os.Policy.Broker.{insert_before, sorted_with, missing_of}

-- An approval that is given: evidence that grants it, none in force that refuses it, and a requester that
-- is not a model.
pub record Satisfied (request : PolicyRequest) (now : Timestamp) (r : ApprovalRequirement)
    : Type 0 where
  pub evidence : ApprovalEvidence
  pub found : find? (grants request r now) request.approval_evidence ≡ some evidence
  pub granted : grants request r now evidence ≡ true
  pub not_refused : any (refuses r now) request.approval_evidence ≡ false
  pub not_model : is_model request.requester_kind ≡ false

not_nil : {A : Type 0} (xs : List A) (x : A) → xs ++ (x ∷ []) ≢ []
not_nil [] x h = cc h
not_nil (y ∷ ys) x h = cc h

module _ (request : PolicyRequest) (now : Timestamp) where
  weigh_evidence-Satisfied :
      (r : ApprovalRequirement) (o : Option ApprovalEvidence) (s : Approvals)
      → find? (grants request r now) request.approval_evidence ≡ o
      → any (refuses r now) request.approval_evidence ≡ false
      → (weigh_evidence request r o s).missing ≡ []
      → Satisfied request now r
        × ((weigh_evidence request r o s).judgement ≡ s.judgement)
        × (s.missing ≡ [])
  weigh_evidence-Satisfied r none s e calm h = absurd (not_nil s.missing r h)
  weigh_evidence-Satisfied r (some item) s e calm h =
      elim (Bool-cases (is_model request.requester_kind)) [
        | inl machine ↦ absurd (not_nil s.missing r (rw machine at h))
        | inr person ↦ elim (Bool-cases (is_reusable item.usage)) [
          | inl again ↦ rw (person, again) (satisfied person, refl, rw (person, again) at h)
          | inr once ↦ rw (person, once) (satisfied person, refl, rw (person, once) at h)
        ]
      ]
    where
      satisfied : is_model request.requester_kind ≡ false → Satisfied request now r
      satisfied person = record {
        evidence = item;
        found = e;
        granted = find?-sound (grants request r now) request.approval_evidence e;
        not_refused = calm;
        not_model = person;
      }

  weigh_approval-Satisfied :
      (r : ApprovalRequirement) (s : Approvals)
      → (weigh_approval request now r s).judgement.is_denied ≡ false
      → (weigh_approval request now r s).missing ≡ []
      → Satisfied request now r
        × ((weigh_approval request now r s).judgement ≡ s.judgement)
        × (s.missing ≡ [])
  unfolding weigh_approval deny_if
  weigh_approval-Satisfied r s h m =
      elim (Bool-cases (any (refuses r now) request.approval_evidence)) [
        | inl refused_it ↦ absurd (cc (rw (refused_it, weigh_approval) at h))
        | inr calm ↦
            rw (calm, weigh_approval)
              (weigh_evidence-Satisfied r _ s refl calm (rw (calm, weigh_approval) at m))
      ]

  pub weigh_approvals-Satisfied :
      (rs : List ApprovalRequirement) (s : Approvals)
      → (weigh_approvals request now rs s).judgement.is_denied ≡ false
      → (weigh_approvals request now rs s).missing ≡ []
      → All (Satisfied request now) rs
        × ((weigh_approvals request now rs s).judgement ≡ s.judgement)
        × (s.missing ≡ [])
  unfolding weigh_approvals
  weigh_approvals-Satisfied [] s h m = (tt, refl, m)
  weigh_approvals-Satisfied (r ∷ rs) s h m =
      let (others, same, m1) = weigh_approvals-Satisfied rs (weigh_approval request now r s) h m in
      let h1 : (weigh_approval request now r s).judgement.is_denied ≡ false =
        ap (λ (j : Judgement). j.is_denied) (sym same) ∙ h in
      let (this, equal, m2) = weigh_approval-Satisfied r s h1 m1 in
      ((this, others), same ∙ equal, m2)

All-of_insert :
    {A : Type 0} (P : A → Type 0) (before : A → A → Bool) (x : A) (xs : List A)
    → All P (insert_before before x xs)
    → P x × All P xs
All-of_insert P before x [] (here, _) = (here, tt)
All-of_insert P before x (y ∷ ys) h = elim (Bool-cases (before y x)) [
  | inl first ↦
      let (head, tail) = rw first at h in
      let (here, there) = All-of_insert P before x ys tail in (here, (head, there))
  | inr last ↦ let (here, there) = rw last at h in (here, there)
]

pub All-of_sorted :
    {A : Type 0} (P : A → Type 0) (before : A → A → Bool) (xs : List A)
    → All P (sorted_with before xs)
    → All P xs
All-of_sorted P before [] h = tt
All-of_sorted P before (x ∷ xs) h =
    let (here, there) = All-of_insert P before x (sorted_with before xs) h in
    (here, All-of_sorted P before xs there)

filter_none :
    {A : Type 0} (p q : A → Bool) (xs : List A)
    → filter p (filter q xs) ≡ []
    → All (λ x. q x ≡ true → p x ≡ false) xs
filter_none p q [] h = tt
filter_none p q (x ∷ xs) h = elim (Bool-cases (q x)) [
  | inl chosen ↦ elim (Bool-cases (p x)) [
    | inl kept ↦ absurd (cc (rw (chosen, kept) at h))
    | inr dropped ↦ (λ _. dropped, filter_none p q xs (rw (chosen, dropped) at h))
  ]
  | inr left ↦ (λ e. absurd (cc (left, e)), filter_none p q xs (rw left at h))
]

-- A redaction that is asked for is not left out.
abbrev Applied : PolicyRequest → Judgement → RedactionKind → Type 0
Applied request j u =
    includes redaction_rank j.transformations u ≡ true
    → not (includes redaction_rank request.transformations_applied u) ≡ false

-- No redaction is missing: those that are asked for were applied.
pub nothing_missing :
    (request : PolicyRequest) (j : Judgement) (t : RedactionKind)
    → missing_of request j ≡ []
    → includes redaction_rank j.transformations t ≡ true
    → includes redaction_rank request.transformations_applied t ≡ true
nothing_missing request j t h asked =
    let (a, (b, (c, _))) =
      filter_none (λ u. not (includes redaction_rank request.transformations_applied u))
        (λ u. includes redaction_rank j.transformations u)
        (personal_data ∷ proprietary_identifiers ∷ secrets ∷ []) h in
    pick t a b c asked
  where
    pick :
        (u : RedactionKind)
        → Applied request j personal_data
        → Applied request j proprietary_identifiers
        → Applied request j secrets
        → includes redaction_rank j.transformations u ≡ true
        → includes redaction_rank request.transformations_applied u ≡ true
    pick personal_data a b c e = let k = a e in ground (arith, k)
    pick proprietary_identifiers a b c e = let k = b e in ground (arith, k)
    pick secrets a b c e = let k = c e in ground (arith, k)
