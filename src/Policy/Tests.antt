-- ===== src/Policy/Tests.antt =====
-- packages/policy/src/policy.ts: the theorems at a cloud disclosure that a rule allows with an approval.
use ai_development_os.Prelude.{
  ◌≡◌, refl, inl, ◌==◌, string_eq, String, true, false, Option, none, some, [], ◌∷◌,
}
use ai_development_os.Policy.Model.{
  provider_disclosure, proprietary_source, low, secrets, streaming, by_user, one_shot, approved,
  user, allow, deny, cloud, ApprovalScope, ApprovalEvidence, ApprovalTemplate, PolicyRule,
  DataHandlingPolicy, ProviderDescriptor, PolicyRequest, PolicyRuleEffect, allowed, denied,
}
use ai_development_os.Policy.Broker.{Broker, evaluate}
use ai_development_os.Policy.Permission.{IsPermitted, evaluate-IsPermitted}
use ai_development_os.Policy.Disclosure.{Disclosed, evaluate-Disclosed}
use ai_development_os.Policy.Denial.{evaluate-denied}

abbrev subject : String
subject = "0000000000000000000000000000000000000000000000000000000000000000"

abbrev project : ApprovalScope
project = record {
  project_id = some "app";
  task_id = none;
  provider_instance_id = none;
  workspace_id = none;
  operation_id = none;
  trace_id = none;
}

abbrev rule_with : String → PolicyRuleEffect → Option ApprovalTemplate → PolicyRule
rule_with name effect template = record {
  id = name;
  effect = effect;
  actions = provider_disclosure ∷ [];
  classifications = [];
  risks = low ∷ [];
  required_transformations = secrets ∷ [];
  approval = template;
  requires_local = false;
  forbid_input_logging = true;
  forbid_output_logging = false;
  forbid_artifact_persistence = false;
  forbid_retention = false;
  max_retention_days = some 30;
  forbidden_capabilities = [];
}

abbrev disclose : PolicyRule
disclose =
    rule_with "disclose" allow
      (some (record { approver_class = by_user; usage = one_shot; ttl_ms = 60000 }))

abbrev broker : Broker
broker = record {
  rules = disclose ∷ [];
  request_id = λ rule _. rule.id;
  collates_before = λ a b. a == b;
  text_before = λ a b. a == b;
}

abbrev strict : Broker
strict = record broker { rules = disclose ∷ rule_with "stop" deny none ∷ [] }

abbrev consent : ApprovalEvidence
consent = record {
  approval_request_id = "disclose";
  action = provider_disclosure;
  risk = low;
  scope = project;
  subject_digest = subject;
  usage = one_shot;
  approver_class = by_user;
  result = approved;
  expires_at = 2000;
  revoked_at = none;
  consumed_at = none;
}

abbrev remote : ProviderDescriptor
remote = record {
  is_cloud = true;
  retains_data = false;
  trains_on_inputs = false;
  supported_classifications = proprietary_source ∷ [];
  streams = true;
  structured = false;
  calls_tools = false;
  reads_images = false;
  edits_repositories = false;
  executes_commands = false;
  accesses_network = false;
  resumes = false;
}

abbrev handling : DataHandlingPolicy
handling = record {
  cloud_providers_allowed = true;
  local_execution_required = false;
  redactions_required_before_disclosure = secrets ∷ [];
  log_retention_allowed = true;
  artifact_persistence_allowed = true;
  disallows_retention = true;
  disallows_training = true;
}

abbrev request : PolicyRequest
request = record {
  action = provider_disclosure;
  classification = proprietary_source;
  handling_policy = handling;
  risk = low;
  locality = cloud;
  provider = some remote;
  model = none;
  scope = project;
  subject_digest = some subject;
  requested_capabilities = streaming ∷ [];
  transformations_applied = secrets ∷ [];
  approval_evidence = consent ∷ [];
  retention_days = none;
  trace_id = "trace";
  requester_kind = user;
}

evaluate-request : (evaluate broker request 1000).outcome ≡ allowed
unfolding evaluate ai_development_os.Policy.Broker.decide
    ai_development_os.Policy.Approvals.weigh_approvals ai_development_os.Policy.Checks.judge_request
    ai_development_os.Policy.Checks.check_keeping ai_development_os.Policy.Checks.check_locality
    ai_development_os.Policy.Checks.judge_capabilities ai_development_os.Policy.Checks.check_target
    ai_development_os.Policy.Checks.check_allowed ai_development_os.Policy.Approvals.weigh_approval
    ai_development_os.Policy.Approvals.grants ai_development_os.Policy.Approvals.refuses
    ai_development_os.Policy.Approvals.scope_covers ai_development_os.Policy.Rules.deny_if
    ai_development_os.Policy.Rules.judge_disclosure
    ai_development_os.Policy.Rules.evaluate_disclosure ai_development_os.Policy.Rules.apply_rules
    ai_development_os.Policy.Rules.matched_rules ai_development_os.Policy.Rules.matches_request
    ai_development_os.Policy.Rules.apply_rule
evaluate-request = refl

evaluate-IsPermitted_example : IsPermitted broker request 1000
evaluate-IsPermitted_example = evaluate-IsPermitted broker request 1000 evaluate-request

evaluate-Disclosed_example : Disclosed request remote
evaluate-Disclosed_example =
    evaluate-Disclosed broker request 1000 remote refl refl evaluate-request

evaluate-denied_example : (evaluate strict request 1000).outcome ≡ denied
unfolding ai_development_os.Policy.Rules.matched_rules
    ai_development_os.Policy.Rules.matches_request
evaluate-denied_example = evaluate-denied strict request 1000 (inl refl)
