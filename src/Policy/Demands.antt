-- ===== src/Policy/Demands.antt =====
-- packages/policy/src/policy.ts: what the loop over the matching rules leaves in a judgement that denies
-- nothing.
use ai_development_os.Prelude.{
  sym, append-nil, append_assoc, ◌≡◌, refl, ◌∙◌, ap, subst, String, true, false, Option, none, some,
  List, [], ◌∷◌, ◌++◌, All, All-map, arith,
}
use ai_development_os.Domain.Guards.{Timestamp}
use ai_development_os.Policy.Model.{
  redaction_rank, includes, PolicyRule, ApprovalTemplate, PolicyRequest, ApprovalRequirement,
  RedactionKind,
}
use ai_development_os.Policy.Rules.{Judgement, deny_if, is_deny, requirement, demand_approval}

-- Where an item stands in a list.
pub record Has {A : Type 0} (x : A) (xs : List A) : Type 0 where
  pub before : List A
  pub after : List A
  pub whole : xs ≡ before ++ (x ∷ after)

pub All-Has : {A : Type 0} (P : A → Type 0) (x : A) (xs : List A) → Has x xs → All P xs → P x
All-Has P x xs h all_pass = at h.before (subst (All P) h.whole all_pass)
  where
    at : (ys : List _) → All P (ys ++ (x ∷ h.after)) → P x
    at [] (here, _) = here
    at (y ∷ ys) (_, there) = at ys there

pub Has-append : {A : Type 0} (x : A) (xs ys : List A) → Has x xs → Has x (xs ++ ys)
Has-append x xs ys h = record {
  before = h.before;
  after = h.after ++ ys;
  whole = ap (λ zs. zs ++ ys) h.whole ∙ append_assoc h.before (x ∷ h.after) ys;
}

pub includes-append :
    (xs ys : List RedactionKind) (t : RedactionKind)
    → includes redaction_rank xs t ≡ true
    → includes redaction_rank (xs ++ ys) t ≡ true
includes-append [] ys t h = absurd (cc h)
includes-append (x ∷ xs) ys t h = ground (arith, h, includes-append xs ys t)

pub includes-second :
    (xs ys : List RedactionKind) → All (λ t. includes redaction_rank (xs ++ ys) t ≡ true) ys
includes-second xs ys = All-map ys (λ t here. after xs t here) (own ys)
  where
    after :
        (zs : List RedactionKind) (t : RedactionKind)
        → includes redaction_rank ys t ≡ true
        → includes redaction_rank (zs ++ ys) t ≡ true
    after [] t h = h
    after (z ∷ zs) t h = ground (arith, after zs t h)

    own : (zs : List RedactionKind) → All (λ t. includes redaction_rank zs t ≡ true) zs
    own [] = tt
    own (z ∷ zs) = (ground (arith), All-map zs (λ t h. ground (arith, h)) (own zs))

-- A judgement that has gained approvals and redactions, and denied nothing.
pub record Gains (j j' : Judgement) : Type 0 where
  pub was_clear : j.is_denied ≡ false
  pub new_approvals : List ApprovalRequirement
  pub approvals_kept : j'.approvals ≡ j.approvals ++ new_approvals
  pub new_transformations : List RedactionKind
  pub transformations_kept : j'.transformations ≡ j.transformations ++ new_transformations
  pub still_local : j.requires_local ≡ true → j'.requires_local ≡ true

pub Gains-same : (j : Judgement) → j.is_denied ≡ false → Gains j j
Gains-same j h = record {
  was_clear = h;
  new_approvals = [];
  approvals_kept = sym (append-nil j.approvals);
  new_transformations = [];
  transformations_kept = sym (append-nil j.transformations);
  still_local = λ e. e;
}

pub Gains-trans : (a b c : Judgement) → Gains a b → Gains b c → Gains a c
Gains-trans a b c f g = record {
  was_clear = f.was_clear;
  new_approvals = f.new_approvals ++ g.new_approvals;
  approvals_kept =
      g.approvals_kept
      ∙ ap (λ xs. xs ++ g.new_approvals) f.approvals_kept
      ∙ append_assoc a.approvals f.new_approvals g.new_approvals;
  new_transformations = f.new_transformations ++ g.new_transformations;
  transformations_kept =
      g.transformations_kept
      ∙ ap (λ xs. xs ++ g.new_transformations) f.transformations_kept
      ∙ append_assoc a.transformations f.new_transformations g.new_transformations;
  still_local = λ e. g.still_local (f.still_local e);
}

module _ (request_id : PolicyRule → PolicyRequest → String) (request : PolicyRequest)
    (now : Timestamp) where
  -- The approval that a rule asks for is among those that a judgement lists.
  pub record Asked (rule : PolicyRule) (template : ApprovalTemplate) (j : Judgement) : Type 0 where
    pub digest : String
    pub subject : request.subject_digest ≡ some digest
    pub listed : Has (requirement request_id request now rule template digest) j.approvals

  pub demand-Gains :
      (rule : PolicyRule) (o : Option ApprovalTemplate) (digest : Option String) (j : Judgement)
      → (demand_approval request_id request now rule o digest j).is_denied ≡ false
      → Gains j (demand_approval request_id request now rule o digest j)
        × ((template : ApprovalTemplate)
            → o ≡ some template
            → (g : String) × (digest ≡ some g)
              × Has
                  (requirement request_id request now rule template g)
                  (demand_approval request_id request now rule o digest j).approvals)
  unfolding deny_if
  demand-Gains rule none digest j h = (Gains-same j h, λ template e. absurd (cc e))
  demand-Gains rule (some template) none j h = absurd (cc h)
  demand-Gains rule (some template) (some g) j h = (
    record {
      was_clear = h;
      new_approvals = requirement request_id request now rule template g ∷ [];
      approvals_kept = refl;
      new_transformations = [];
      transformations_kept = sym (append-nil j.transformations);
      still_local = λ e. e;
    },
    λ asked e. (
      g,
      refl,
      record {
        before = j.approvals;
        after = [];
        whole =
            ap
              (λ (t : ApprovalTemplate).
                j.approvals ++ (requirement request_id request now rule t g ∷ []))
              (cc e);
      },
    ),
  )

  -- What one rule leaves.
  pub record Heeded (rule : PolicyRule) (j : Judgement) : Type 0 where
    pub not_denying : is_deny rule.effect ≡ false
    pub redactions :
        All (λ t. includes redaction_rank j.transformations t ≡ true) rule.required_transformations
    pub locality : rule.requires_local ≡ true → j.requires_local ≡ true
    pub approval_asked :
        (template : ApprovalTemplate) → rule.approval ≡ some template → Asked rule template j
