-- ===== src/Policy/Rules.antt =====
-- packages/policy/src/policy.ts: the loop of `evaluate` over the rules that match, and the disclosure of
-- packages/domain/src/classification.ts. The end of an approval is a plain sum: the clock is far from the
-- last time that a `Date` can hold.
use ai_development_os.Prelude.{
  ℕ, ◌+◌, String, Bool, true, false, not, ◌&&◌, ◌||◌, Option, none, some, List, [], ◌∷◌, ◌++◌,
  filter, leb, if◌then◌else◌,
}
use ai_development_os.Domain.Guards.{Timestamp}
use ai_development_os.Policy.Model.{
  PolicyAction, action_rank, classification_rank, risk_rank, RedactionKind, PolicyCapability,
  includes, PolicyRuleEffect, allow, deny, conditional_effect, ApprovalTemplate, PolicyRule,
  DataHandlingPolicy, ProviderDescriptor, PolicyRequest, ApprovalRequirement, ReasonCode,
  rule_denied, approval_subject_required, cloud_disclosure_forbidden, local_execution_required,
  capability_forbidden, retention_forbidden, provider_disclosure, model_eligibility,
  cloud_execution,
}

-- The variables of `evaluate`. `transformations` and `forbidden` are sets.
pub record Judgement : Type 0 where
  pub is_denied : Bool
  pub reasons : List ReasonCode
  pub transformations : List RedactionKind
  pub approvals : List ApprovalRequirement
  pub forbidden : List PolicyCapability
  pub allowed_by_rule : Bool
  pub requires_local : Bool
  pub input_allowed : Bool
  pub output_allowed : Bool
  pub retention_allowed : Bool
  pub max_days : Option ℕ

-- `if (condition) { denied = true; reasons.push(code); }`.
unfoldable pub deny_if : Bool → ReasonCode → Judgement → Judgement
deny_if condition code j =
    if condition then record j { is_denied = true; reasons = j.reasons ++ (code ∷ []) } else j

abbrev pub is_empty {ℓ} : {A : Type ℓ} → List A → Bool
is_empty [] = true
is_empty (x ∷ xs) = false

unfoldable pub matches_request : PolicyRequest → PolicyRule → Bool
matches_request request rule =
    includes action_rank rule.actions request.action
    && ((is_empty rule.classifications
          || includes classification_rank rule.classifications request.classification)
        && (is_empty rule.risks || includes risk_rank rule.risks request.risk))

unfoldable pub matched_rules : List PolicyRule → PolicyRequest → List PolicyRule
matched_rules rules request = filter (matches_request request) rules

abbrev pub is_deny : PolicyRuleEffect → Bool
is_deny deny = true
is_deny _ = false

abbrev pub is_permission : PolicyRuleEffect → Bool
is_permission deny = false
is_permission allow = true
is_permission conditional_effect = true

-- `Math.min`, where `null` is no limit.
abbrev pub min_days : Option ℕ → Option ℕ → Option ℕ
min_days days none = days
min_days none (some limit) = some limit
min_days (some days) (some limit) = some (if leb days limit then days else limit)

-- What a rule restricts.
abbrev pub restrict : Judgement → PolicyRule → Judgement
restrict j rule = record j {
  allowed_by_rule = j.allowed_by_rule || is_permission rule.effect;
  transformations = j.transformations ++ rule.required_transformations;
  requires_local = j.requires_local || rule.requires_local;
  input_allowed = j.input_allowed && not rule.forbid_input_logging;
  output_allowed = j.output_allowed && not rule.forbid_output_logging;
  retention_allowed = j.retention_allowed && not rule.forbid_retention;
  max_days = min_days j.max_days rule.max_retention_days;
  forbidden = j.forbidden ++ rule.forbidden_capabilities;
}

abbrev pub requirement :
    (PolicyRule → PolicyRequest → String)
    → PolicyRequest
    → Timestamp
    → PolicyRule
    → ApprovalTemplate
    → String
    → ApprovalRequirement
requirement request_id request now rule template digest = record {
  approval_request_id = request_id rule request;
  action = request.action;
  risk = request.risk;
  scope = request.scope;
  subject_digest = digest;
  expires_at = now + template.ttl_ms;
  usage = template.usage;
  approver_class = template.approver_class;
  trace_id = request.trace_id;
}

-- The approval that a rule asks for.
abbrev pub demand_approval :
    (PolicyRule → PolicyRequest → String)
    → PolicyRequest
    → Timestamp
    → PolicyRule
    → Option ApprovalTemplate
    → Option String
    → Judgement
    → Judgement
demand_approval request_id request now rule none digest j = j
demand_approval request_id request now rule (some template) none j =
    deny_if true approval_subject_required j
demand_approval request_id request now rule (some template) (some digest) j = record j {
  approvals = j.approvals ++ (requirement request_id request now rule template digest ∷ []);
}

unfoldable pub apply_rule :
    (PolicyRule → PolicyRequest → String)
    → PolicyRequest
    → Timestamp
    → PolicyRule
    → Judgement
    → Judgement
apply_rule request_id request now rule j =
    demand_approval request_id request now rule rule.approval request.subject_digest
      (restrict (deny_if (is_deny rule.effect) rule_denied j) rule)

unfoldable pub apply_rules :
    (PolicyRule → PolicyRequest → String)
    → PolicyRequest
    → Timestamp
    → List PolicyRule
    → Judgement
    → Judgement
apply_rules request_id request now [] j = j
apply_rules request_id request now (rule ∷ rules) j =
    apply_rules request_id request now rules (apply_rule request_id request now rule j)

abbrev pub start : PolicyRequest → Judgement
start request = record {
  is_denied = false;
  reasons = [];
  transformations = [];
  approvals = [];
  forbidden = [];
  allowed_by_rule = false;
  requires_local = false;
  input_allowed = request.handling_policy.log_retention_allowed;
  output_allowed = request.handling_policy.log_retention_allowed;
  retention_allowed = request.handling_policy.log_retention_allowed;
  max_days = none;
}

-- `evaluateDisclosure`: what it denies, and the redactions that it asks for.
unfoldable pub evaluate_disclosure : DataHandlingPolicy → ProviderDescriptor → Judgement → Judgement
evaluate_disclosure policy provider j =
    let retains = provider.retains_data && policy.disallows_retention in
    let trains = provider.trains_on_inputs && policy.disallows_training in
    let weighed_up = deny_if (retains || trains) capability_forbidden (
      deny_if retains retention_forbidden (
        deny_if (policy.local_execution_required && provider.is_cloud) local_execution_required (
          deny_if (provider.is_cloud && not policy.cloud_providers_allowed)
            cloud_disclosure_forbidden j))) in
    record weighed_up {
      transformations =
          weighed_up.transformations
          ++ (if provider.is_cloud then policy.redactions_required_before_disclosure else []);
      requires_local = weighed_up.requires_local || policy.local_execution_required;
    }

abbrev pub discloses : PolicyAction → Bool
discloses action =
    includes action_rank (provider_disclosure ∷ model_eligibility ∷ cloud_execution ∷ []) action

unfoldable pub judge_disclosure : PolicyRequest → Option ProviderDescriptor → Judgement → Judgement
judge_disclosure request none j = j
judge_disclosure request (some provider) j =
    if discloses request.action then evaluate_disclosure request.handling_policy provider j else j
