-- ===== src/Policy/Clearance.antt =====
-- packages/policy/src/policy.ts: what a judgement that denies nothing has passed.
use ai_development_os.Prelude.{
  append-nil, ◌≡◌, refl, sym, ◌∙◌, ap, subst, Bool, true, false, ◌&&◌, ◌||◌, Option, none, some,
  List, [], ◌∷◌, ◌++◌, All, arith, if◌then◌else◌, inl, inr, Bool-cases,
}
use ai_development_os.Policy.Model.{
  PolicyCapability, capability_rank, includes, PolicyRule, ProviderDescriptor, PolicyRequest,
  ReasonCode, RedactionKind, DataHandlingPolicy,
}
use ai_development_os.Policy.Rules.{
  Judgement, deny_if, evaluate_disclosure, discloses, judge_disclosure,
}
use ai_development_os.Policy.Checks.{
  capability_available, is_cloud_request, judge_capabilities, judge_request, check_allowed,
  check_target, check_locality, check_keeping,
}

-- A check that leaves the judgement clear found nothing, and changed nothing.
pub clear {ν} :
    {P : Type ν} (b : Bool) (code : ReasonCode) (j : Judgement)
    → (deny_if b code j).is_denied ≡ false
    → (b ≡ false → j.is_denied ≡ false → deny_if b code j ≡ j → P)
    → P
unfolding deny_if
clear true code j h k = absurd (cc h)
clear false code j h k = k refl h refl

-- A later judgement that has lost nothing of an earlier one.
pub record Extends (j j' : Judgement) : Type 0 where
  pub was_clear : j.is_denied ≡ false
  pub same_approvals : j'.approvals ≡ j.approvals
  pub more : List RedactionKind
  pub transformations : j'.transformations ≡ j.transformations ++ more
  pub still_local : j.requires_local ≡ true → j'.requires_local ≡ true

Extends-same : (j : Judgement) → j.is_denied ≡ false → Extends j j
Extends-same j h = record {
  was_clear = h;
  same_approvals = refl;
  more = [];
  transformations = sym (append-nil j.transformations);
  still_local = λ e. e;
}

disclosure-Extends :
    (policy : DataHandlingPolicy) (p : ProviderDescriptor) (j : Judgement)
    → (evaluate_disclosure policy p j).is_denied ≡ false
    → Extends j (evaluate_disclosure policy p j)
unfolding evaluate_disclosure
disclosure-Extends policy p j h = clear _ _ _ h λ _ h1 e1. clear _ _ _ h1 λ _ h2 e2.
    clear _ _ _ h2 λ _ h3 e3. clear _ _ _ h3 λ _ h4 e4.
      let same = e1 ∙ e2 ∙ e3 ∙ e4 in
      record {
        was_clear = h4;
        same_approvals = ap (λ (r : Judgement). r.approvals) same;
        more = if p.is_cloud then policy.redactions_required_before_disclosure else [];
        transformations =
            ap
              (λ (r : Judgement).
                r.transformations
                ++ (if p.is_cloud then policy.redactions_required_before_disclosure else []))
              same;
        still_local = λ e.
            ap (λ (r : Judgement). r.requires_local || policy.local_execution_required) same
            ∙ ap (λ b. b || policy.local_execution_required) e;
      }

judge_disclosure-Extends :
    (request : PolicyRequest) (o : Option ProviderDescriptor) (j : Judgement)
    → (judge_disclosure request o j).is_denied ≡ false
    → Extends j (judge_disclosure request o j)
unfolding judge_disclosure
judge_disclosure-Extends request none j h = Extends-same j h
judge_disclosure-Extends request (some p) j h = elim (Bool-cases (discloses request.action)) [
  | inl yes_it_does ↦
      rw (yes_it_does, judge_disclosure)
        (disclosure-Extends request.handling_policy p j (rw (yes_it_does, judge_disclosure) at h))
  | inr it_does_not ↦
      rw (it_does_not, judge_disclosure) (Extends-same j (rw (it_does_not, judge_disclosure) at h))
]

pub judge_capabilities-clear :
    (provider : Option ProviderDescriptor) (cs : List PolicyCapability) (j : Judgement)
    → (judge_capabilities provider cs j).is_denied ≡ false
    → (j.is_denied ≡ false)
      × (judge_capabilities provider cs j ≡ j)
      × All
          (λ c.
            (includes capability_rank j.forbidden c ≡ false)
            × (capability_available c provider ≡ true))
          cs
unfolding judge_capabilities
judge_capabilities-clear provider [] j h = (h, refl, tt)
judge_capabilities-clear provider (c ∷ rest) j h =
    let (h1, same, others) = judge_capabilities-clear provider rest _ h in
    clear _ _ _ h1 λ fine before equal. (
      before,
      same ∙ equal,
      (
        (ground (arith, fine), ground (arith, fine)),
        subst
            (λ (r : Judgement).
              All
                (λ d.
                  (includes capability_rank r.forbidden d ≡ false)
                  × (capability_available d provider ≡ true))
                rest)
            equal others,
      ),
    )

-- A check that a clear judgement passed, and that changed nothing.
abbrev Passed : (Judgement → Judgement) → Judgement → Type 0
Passed check j = (j.is_denied ≡ false) × (check j ≡ j)

check_target-Passed :
    (request : PolicyRequest) (j : Judgement)
    → (check_target request j).is_denied ≡ false
    → Passed (check_target request) j
unfolding check_target
check_target-Passed request j h =
    clear _ _ _ h λ _ h1 e1. clear _ _ _ h1 λ _ h2 e2. clear _ _ _ h2 λ _ h3 e3. (h3, e1 ∙ e2 ∙ e3)

check_keeping-Passed :
    (matched : List PolicyRule) (request : PolicyRequest) (j : Judgement)
    → (check_keeping matched request j).is_denied ≡ false
    → Passed (check_keeping matched request) j
unfolding check_keeping
check_keeping-Passed matched request j h = clear _ _ _ h λ _ h1 e1.
    clear _ _ _ h1
      λ _ h2 e2. clear _ _ _ h2 λ _ h3 e3. clear _ _ _ h3 λ _ h4 e4. (h4, e1 ∙ e2 ∙ e3 ∙ e4)

check_locality-Passed :
    (request : PolicyRequest) (j : Judgement)
    → (check_locality request j).is_denied ≡ false
    → Passed (check_locality request) j
      × ((j.requires_local && is_cloud_request request.locality) ≡ false)
unfolding check_locality
check_locality-Passed request j h = clear _ _ _ h λ b h1 e1. ((h1, e1), b)

check_allowed-Passed :
    (j : Judgement)
    → (check_allowed j).is_denied ≡ false
    → Passed check_allowed j × (j.allowed_by_rule ≡ true)
unfolding check_allowed
check_allowed-Passed j h = clear _ _ _ h λ b h1 e1. ((h1, e1), ground (arith, b))

-- A request that is judged and not denied.
pub record Cleared (request : PolicyRequest) (j j' : Judgement) : Type 0 where
  pub extends : Extends j j'
  pub disclosure : j' ≡ judge_disclosure request request.provider j
  pub permitted : j.allowed_by_rule ≡ true
  pub not_cloud : (j'.requires_local && is_cloud_request request.locality) ≡ false
  pub capabilities :
      All
        (λ c.
          (includes capability_rank j'.forbidden c ≡ false)
          × (capability_available c request.provider ≡ true))
        request.requested_capabilities

-- The judgement after the disclosure is the last one.
pub judge_request-Cleared :
    (matched : List PolicyRule) (request : PolicyRequest) (j : Judgement)
    → (judge_request matched request j).is_denied ≡ false
    → Cleared request j (judge_request matched request j)
unfolding judge_request
judge_request-Cleared matched request j h =
    let allowed = check_allowed j in
    let disclosed = judge_disclosure request request.provider allowed in
    let targeted = check_target request disclosed in
    let capable = judge_capabilities request.provider request.requested_capabilities targeted in
    let placed = check_locality request capable in
    let (h1, e1) = check_keeping-Passed matched request placed h in
    let ((h2, e2), not_cloud) = check_locality-Passed request capable h1 in
    let (h3, e3, available) =
      judge_capabilities-clear request.provider request.requested_capabilities targeted h2 in
    let (h4, e4) = check_target-Passed request disclosed h3 in
    let extends = judge_disclosure-Extends request request.provider allowed h4 in
    let ((h5, e5), permitted) = check_allowed-Passed j extends.was_clear in
    let last : check_keeping matched request placed ≡ disclosed = e1 ∙ e2 ∙ e3 ∙ e4 in
    record {
      extends =
          subst (λ (r : Judgement). Extends j r) (sym last)
            (subst (λ (r : Judgement). Extends r disclosed) e5 extends);
      disclosure = last ∙ ap (λ (r : Judgement). judge_disclosure request request.provider r) e5;
      permitted = permitted;
      not_cloud =
          ap (λ (r : Judgement). r.requires_local && is_cloud_request request.locality) (e1 ∙ e2)
          ∙ not_cloud;
      capabilities =
          subst
            (λ (r : Judgement).
              All
                (λ c.
                  (includes capability_rank r.forbidden c ≡ false)
                  × (capability_available c request.provider ≡ true))
                request.requested_capabilities)
            (sym (e1 ∙ e2 ∙ e3)) available;
    }
