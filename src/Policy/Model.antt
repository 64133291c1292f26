-- ===== src/Policy/Model.antt =====
-- packages/policy/src/policy.ts, packages/domain/src/classification.ts and capabilities.ts: the values
-- that the broker reads. Enumerated values are compared by their position.
use ai_development_os.Prelude.{ℕ, String, Bool, Option, List, nat_beq, any}
use ai_development_os.Domain.Guards.{Timestamp}

-- `POLICY_ACTIONS`.
pub data PolicyAction : Type 0 where
  provider_disclosure model_eligibility cloud_execution local_execution : PolicyAction
  artifact_persistence input_logging output_logging workspace_read : PolicyAction
  workspace_write command_execution network_access tool_invocation : PolicyAction
  secret_access approval retention export deletion package_install git_write : PolicyAction

abbrev pub action_rank : PolicyAction → ℕ
action_rank provider_disclosure = 0
action_rank model_eligibility = 1
action_rank cloud_execution = 2
action_rank local_execution = 3
action_rank artifact_persistence = 4
action_rank input_logging = 5
action_rank output_logging = 6
action_rank workspace_read = 7
action_rank workspace_write = 8
action_rank command_execution = 9
action_rank network_access = 10
action_rank tool_invocation = 11
action_rank secret_access = 12
action_rank approval = 13
action_rank retention = 14
action_rank export = 15
action_rank deletion = 16
action_rank package_install = 17
action_rank git_write = 18

-- `DATA_CLASSIFICATIONS`.
pub data DataClassification : Type 0 where
  public_data internal proprietary_source personal secret : DataClassification

abbrev pub classification_rank : DataClassification → ℕ
classification_rank public_data = 0
classification_rank internal = 1
classification_rank proprietary_source = 2
classification_rank personal = 3
classification_rank secret = 4

pub data TaskRisk : Type 0 where
  low medium high critical : TaskRisk

abbrev pub risk_rank : TaskRisk → ℕ
risk_rank low = 0
risk_rank medium = 1
risk_rank high = 2
risk_rank critical = 3

pub data RedactionKind : Type 0 where
  personal_data proprietary_identifiers secrets : RedactionKind

abbrev pub redaction_rank : RedactionKind → ℕ
redaction_rank personal_data = 0
redaction_rank proprietary_identifiers = 1
redaction_rank secrets = 2

-- `POLICY_CAPABILITIES`, in the order of their texts.
pub data PolicyCapability : Type 0 where
  commands data_retention image_input model_training network : PolicyCapability
  repository_editing resumability streaming structured_output tool_calling : PolicyCapability

abbrev pub capability_rank : PolicyCapability → ℕ
capability_rank commands = 0
capability_rank data_retention = 1
capability_rank image_input = 2
capability_rank model_training = 3
capability_rank network = 4
capability_rank repository_editing = 5
capability_rank resumability = 6
capability_rank streaming = 7
capability_rank structured_output = 8
capability_rank tool_calling = 9

-- `xs.includes(x)` for values with a position.
abbrev pub includes : {A : Type 0} → (A → ℕ) → List A → A → Bool
includes rank xs x = any (λ y. nat_beq (rank y) (rank x)) xs

pub data ApproverClass : Type 0 where
  by_user by_project_owner by_organization_admin : ApproverClass

abbrev pub approver_rank : ApproverClass → ℕ
approver_rank by_user = 0
approver_rank by_project_owner = 1
approver_rank by_organization_admin = 2

pub data ApprovalUsage : Type 0 where
  one_shot reusable : ApprovalUsage

pub data ApprovalResult : Type 0 where
  approved refused : ApprovalResult

pub data RequesterKind : Type 0 where
  user system model_requester : RequesterKind

pub data PolicyRuleEffect : Type 0 where
  allow deny conditional_effect : PolicyRuleEffect

pub data Locality : Type 0 where
  local cloud unspecified : Locality

pub record ApprovalScope : Type 0 where
  pub project_id : Option String
  pub task_id : Option String
  pub provider_instance_id : Option String
  pub workspace_id : Option String
  pub operation_id : Option String
  pub trace_id : Option String

pub record ApprovalEvidence : Type 0 where
  pub approval_request_id : String
  pub action : PolicyAction
  pub risk : TaskRisk
  pub scope : ApprovalScope
  pub subject_digest : String
  pub usage : ApprovalUsage
  pub approver_class : ApproverClass
  pub result : ApprovalResult
  pub expires_at : Timestamp
  pub revoked_at : Option Timestamp
  pub consumed_at : Option Timestamp

pub record ApprovalTemplate : Type 0 where
  pub approver_class : ApproverClass
  pub usage : ApprovalUsage
  pub ttl_ms : ℕ

pub record PolicyRule : Type 0 where
  pub id : String
  pub effect : PolicyRuleEffect
  pub actions : List PolicyAction
  pub classifications : List DataClassification
  pub risks : List TaskRisk
  pub required_transformations : List RedactionKind
  pub approval : Option ApprovalTemplate
  pub requires_local : Bool
  pub forbid_input_logging : Bool
  pub forbid_output_logging : Bool
  pub forbid_artifact_persistence : Bool
  pub forbid_retention : Bool
  pub max_retention_days : Option ℕ
  pub forbidden_capabilities : List PolicyCapability

-- `DataHandlingPolicy`; of the capabilities that it disallows, those that a provider is asked for.
pub record DataHandlingPolicy : Type 0 where
  pub cloud_providers_allowed : Bool
  pub local_execution_required : Bool
  pub redactions_required_before_disclosure : List RedactionKind
  pub log_retention_allowed : Bool
  pub artifact_persistence_allowed : Bool
  pub disallows_retention : Bool
  pub disallows_training : Bool

pub record ProviderDescriptor : Type 0 where
  pub is_cloud : Bool
  pub retains_data : Bool
  pub trains_on_inputs : Bool
  pub supported_classifications : List DataClassification
  pub streams : Bool
  pub structured : Bool
  pub calls_tools : Bool
  pub reads_images : Bool
  pub edits_repositories : Bool
  pub executes_commands : Bool
  pub accesses_network : Bool
  pub resumes : Bool

-- Of `ModelCapabilities`, what the broker asks for.
pub record ModelCapabilities : Type 0 where
  pub supports_tool_use : Bool
  pub supports_structured_output : Bool
  pub supports_vision : Bool
  pub is_local : Bool

pub record PolicyRequest : Type 0 where
  pub action : PolicyAction
  pub classification : DataClassification
  pub handling_policy : DataHandlingPolicy
  pub risk : TaskRisk
  pub locality : Locality
  pub provider : Option ProviderDescriptor
  pub model : Option ModelCapabilities
  pub scope : ApprovalScope
  pub subject_digest : Option String
  pub requested_capabilities : List PolicyCapability
  pub transformations_applied : List RedactionKind
  pub approval_evidence : List ApprovalEvidence
  pub retention_days : Option ℕ
  pub trace_id : String
  pub requester_kind : RequesterKind

pub record ApprovalRequirement : Type 0 where
  pub approval_request_id : String
  pub action : PolicyAction
  pub risk : TaskRisk
  pub scope : ApprovalScope
  pub subject_digest : String
  pub expires_at : Timestamp
  pub usage : ApprovalUsage
  pub approver_class : ApproverClass
  pub trace_id : String

-- The codes of the reasons.
pub data ReasonCode : Type 0 where
  rule_denied approval_subject_required default_deny : ReasonCode
  cloud_disclosure_forbidden local_execution_required : ReasonCode
  provider_classification_unsupported locality_mismatch model_capability_mismatch : ReasonCode
  capability_forbidden artifact_persistence_forbidden : ReasonCode
  input_logging_forbidden output_logging_forbidden retention_forbidden : ReasonCode
  approval_denied conditions_required : ReasonCode

pub data PolicyOutcome : Type 0 where
  allowed denied conditional : PolicyOutcome

pub record PolicyDecision : Type 0 where
  pub outcome : PolicyOutcome
  pub reasons : List ReasonCode
  pub matched_rule_ids : List String
  pub required_transformations : List RedactionKind
  pub required_approvals : List ApprovalRequirement
  pub requires_local : Bool
  pub input_allowed : Bool
  pub output_allowed : Bool
  pub retention_allowed : Bool
  pub max_days : Option ℕ
  pub capability_constraints : List PolicyCapability
  pub approvals_to_consume : List String
