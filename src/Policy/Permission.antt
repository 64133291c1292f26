-- ===== src/Policy/Permission.antt =====
-- packages/policy/src/policy.ts: an action that `evaluate` allows is permitted by the rules, one by one.
use ai_development_os.Prelude.{
  or-false, or_assoc, ◌≡◌, refl, sym, ◌∙◌, ap, subst, String, Bool, true, false, not, ◌&&◌, ◌||◌,
  Option, some, List, [], ◌∷◌, All, All-map, none, any, arith,
}
use ai_development_os.Domain.Guards.{Timestamp}
use ai_development_os.Policy.Model.{
  RedactionKind, redaction_rank, includes, PolicyRule, ApprovalTemplate, PolicyRequest, Locality,
  local, cloud, unspecified, ReasonCode, rule_denied, allowed,
}
use ai_development_os.Policy.Rules.{
  Judgement, deny_if, is_empty, is_deny, is_permission, matched_rules, requirement, demand_approval,
  apply_rule, apply_rules, start,
}
use ai_development_os.Policy.Checks.{
  capability_available, is_cloud_request, is_unspecified, is_local_request,
}
use ai_development_os.Policy.Approvals.{Approvals}
use ai_development_os.Policy.Broker.{Broker, outcome_of, decide, judged, missing_of, evaluate}
use ai_development_os.Policy.Clearance.{Cleared, judge_request-Cleared}
use ai_development_os.Policy.Demands.{All-Has, includes-append, Heeded}
use ai_development_os.Policy.Heeding.{apply_rules-Heeded}
use ai_development_os.Policy.Decisions.{
  Satisfied, weigh_approvals-Satisfied, All-of_sorted, nothing_missing,
}

-- What one matching rule asks of a request that is allowed.
pub record Respected (broker : Broker) (request : PolicyRequest) (now : Timestamp)
    (rule : PolicyRule) : Type 0 where
  pub not_denying : is_deny rule.effect ≡ false
  pub redacted :
      All
        (λ t. includes redaction_rank request.transformations_applied t ≡ true)
        rule.required_transformations
  pub placed : rule.requires_local ≡ true → is_local_request request.locality ≡ true
  pub approved :
      (template : ApprovalTemplate)
      → rule.approval ≡ some template
      → (digest : String) × (request.subject_digest ≡ some digest)
        × Satisfied request now (requirement broker.request_id request now rule template digest)

-- A request that the rules permit: a matching rule permits it, each matching rule is respected, and the
-- capabilities that it asks for are the provider's.
pub record IsPermitted (broker : Broker) (request : PolicyRequest) (now : Timestamp) : Type 0 where
  pub permitted :
      any (λ rule. is_permission rule.effect) (matched_rules broker.rules request) ≡ true
  pub respected : All (Respected broker request now) (matched_rules broker.rules request)
  pub available :
      All (λ c. capability_available c request.provider ≡ true) request.requested_capabilities

outcome_of-allowed : (a b : Bool) → outcome_of a b ≡ allowed → (a ≡ false) × (b ≡ false)
outcome_of-allowed true b h = absurd (cc h)
outcome_of-allowed false true h = absurd (cc h)
outcome_of-allowed false false h = (refl, refl)

empty_is_nil : {A : Type 0} (xs : List A) → is_empty xs ≡ true → xs ≡ []
empty_is_nil [] h = refl
empty_is_nil (x ∷ xs) h = absurd (cc h)

-- A decision that allows: nothing is denied, missing or left open.
record Concluded (request : PolicyRequest) (missing : List RedactionKind) (state : Approvals)
    : Type 0 where
  pub clear_judgement : state.judgement.is_denied ≡ false
  pub none_missing : missing ≡ []
  pub all_given : state.missing ≡ []
  pub place_known : (state.judgement.requires_local && is_unspecified request.locality) ≡ false

conclude :
    (a b c d : Bool)
    → outcome_of a (not b || (not c || d)) ≡ allowed
    → (a ≡ false) × (b ≡ true) × (c ≡ true) × (d ≡ false)
conclude a b c d h =
    let (not_denied, settled) = outcome_of-allowed a (not b || (not c || d)) h in
    (not_denied, ground (arith, settled), ground (arith, settled), ground (arith, settled))

only_local :
    (l : Locality)
    → is_cloud_request l ≡ false
    → is_unspecified l ≡ false
    → is_local_request l ≡ true
only_local local not_cloud known = refl
only_local cloud not_cloud known = absurd (cc not_cloud)
only_local unspecified not_cloud known = absurd (cc known)

module _ (request_id : PolicyRule → PolicyRequest → String) (request : PolicyRequest)
    (now : Timestamp) where
  demand-permission :
      (rule : PolicyRule) (o : Option ApprovalTemplate) (digest : Option String) (j : Judgement)
      → (demand_approval request_id request now rule o digest j).allowed_by_rule ≡ j.allowed_by_rule
  unfolding deny_if
  demand-permission rule none digest j = refl
  demand-permission rule (some template) none j = refl
  demand-permission rule (some template) (some digest) j = refl

  deny_if-permission :
      (b : Bool) (code : ReasonCode) (j : Judgement)
      → (deny_if b code j).allowed_by_rule ≡ j.allowed_by_rule
  unfolding deny_if
  deny_if-permission true code j = refl
  deny_if-permission false code j = refl

  pub apply_rules-permission :
      (rules : List PolicyRule) (j : Judgement)
      → (apply_rules request_id request now rules j).allowed_by_rule
        ≡ (j.allowed_by_rule || any (λ rule. is_permission rule.effect) rules)
  unfolding apply_rules apply_rule
  apply_rules-permission [] j = sym (or-false j.allowed_by_rule)
  apply_rules-permission (rule ∷ rules) j =
      let this : (apply_rule request_id request now rule j).allowed_by_rule
          ≡ (j.allowed_by_rule || is_permission rule.effect) =
        demand-permission rule rule.approval request.subject_digest _
        ∙ ap (λ b. b || is_permission rule.effect)
            (deny_if-permission (is_deny rule.effect) rule_denied j) in
      apply_rules-permission rules (apply_rule request_id request now rule j)
      ∙ ap (λ b. b || any (λ r. is_permission r.effect) rules) this
      ∙ or_assoc j.allowed_by_rule (is_permission rule.effect) _

decide-Concluded :
    (broker : Broker) (matched : List PolicyRule) (request : PolicyRequest)
    (missing : List RedactionKind) (state : Approvals)
    → (decide broker matched request missing state).outcome ≡ allowed
    → Concluded request missing state
unfolding decide
decide-Concluded broker matched request missing state h =
    let (clear_one, no_redaction, no_approval, known) =
      conclude state.judgement.is_denied (is_empty missing) (is_empty state.missing) _ h in
    record {
      clear_judgement = clear_one;
      none_missing = empty_is_nil missing no_redaction;
      all_given = empty_is_nil state.missing no_approval;
      place_known = known;
    }

-- What an action that is allowed has passed: the checks, with no redaction missing, no approval missing
-- and no place left open.
pub record Settled (broker : Broker) (request : PolicyRequest) (now : Timestamp)
    (applied j : Judgement) : Type 0 where
  pub not_denied : j.is_denied ≡ false
  pub cleared : Cleared request applied j
  pub none_left : missing_of request j ≡ []
  pub known : (j.requires_local && is_unspecified request.locality) ≡ false
  pub given : All (Satisfied request now) j.approvals

pub placed_locally :
    (broker : Broker) (request : PolicyRequest) (now : Timestamp) (applied j : Judgement)
    → Settled broker request now applied j
    → j.requires_local ≡ true
    → is_local_request request.locality ≡ true
placed_locally broker request now applied j s here =
    only_local request.locality
      (ap (λ b. b && is_cloud_request request.locality) (sym here) ∙ s.cleared.not_cloud)
      (ap (λ b. b && is_unspecified request.locality) (sym here) ∙ s.known)

module _ (broker : Broker) (request : PolicyRequest) (now : Timestamp) where
  -- The judgement of the rules that match.
  abbrev pub applied_rules : Judgement
  applied_rules =
      apply_rules broker.request_id request now (matched_rules broker.rules request) (start request)

  pub evaluate-Settled :
      (evaluate broker request now).outcome ≡ allowed
      → Settled broker request now applied_rules (judged broker request now)
  unfolding evaluate
  evaluate-Settled h =
      let j = judged broker request now in
      let concluded = decide-Concluded broker (matched_rules broker.rules request) request _ _ h in
      let (given, same, _) =
        weigh_approvals-Satisfied request now _ _ concluded.clear_judgement concluded.all_given in
      let not_denied : j.is_denied ≡ false =
        ap (λ (r : Judgement). r.is_denied) (sym same) ∙ concluded.clear_judgement in
      record {
        not_denied = not_denied;
        cleared =
            judge_request-Cleared (matched_rules broker.rules request) request applied_rules
              not_denied;
        none_left = concluded.none_missing;
        known =
            ap (λ (r : Judgement). r.requires_local && is_unspecified request.locality) (sym same)
            ∙ concluded.place_known;
        given = All-of_sorted (Satisfied request now) _ j.approvals given;
      }

  -- What is heeded by a judgement that is settled is respected.
  respect :
      (applied j : Judgement) (rule : PolicyRule)
      → Settled broker request now applied j
      → Heeded broker.request_id request now rule applied
      → Respected broker request now rule
  respect applied j rule s h = record {
    not_denying = h.not_denying;
    redacted =
        All-map rule.required_transformations
          (λ t asked. nothing_missing request j t s.none_left (
            ap (λ ts. includes redaction_rank ts t) s.cleared.extends.transformations
            ∙ includes-append applied.transformations s.cleared.extends.more t asked))
          h.redactions;
    placed = λ e.
        placed_locally broker request now applied j s
          (s.cleared.extends.still_local (h.locality e));
    approved = λ template e.
        let asked = h.approval_asked template e in
        (
          asked.digest,
          asked.subject,
          All-Has (Satisfied request now) _ applied.approvals asked.listed
              (subst (All (Satisfied request now)) s.cleared.extends.same_approvals s.given),
        );
  }

  -- An action that the broker allows is permitted: a matching rule permits it and none denies it, the
  -- redactions that the matching rules require were applied, a rule that requires local execution finds a
  -- local request, an approval that a rule asks for is granted by evidence in force and refused by none, to
  -- a requester that is not a model, and the provider has each capability that the request asks for.
  pub evaluate-IsPermitted :
      (evaluate broker request now).outcome ≡ allowed → IsPermitted broker request now
  evaluate-IsPermitted h =
      let matched = matched_rules broker.rules request in
      let s = evaluate-Settled h in
      let (_, heeded) =
        apply_rules-Heeded broker.request_id request now matched (start request)
          s.cleared.extends.was_clear in
      record {
        permitted =
            sym (apply_rules-permission broker.request_id request now matched (start request))
            ∙ s.cleared.permitted;
        respected =
            All-map matched (λ rule h. respect applied_rules (judged broker request now) rule s h)
              heeded;
        available =
            All-map request.requested_capabilities (λ c both. let (_, there) = both in there)
              s.cleared.capabilities;
      }
