-- ===== src/Policy/Approvals.antt =====
-- packages/policy/src/policy.ts: the approvals that a decision needs, and the evidence that gives or refuses
-- them, with `scopeCovers`.
use ai_development_os.Prelude.{
  String, Bool, true, false, not, ◌&&◌, ◌||◌, Option, none, some, List, [], ◌∷◌, ◌++◌, any, find?,
  nat_beq, if◌then◌else◌, ◌==◌, string_eq, option_eq,
}
use ai_development_os.Domain.Instants.{text_ltb}
use ai_development_os.Domain.Guards.{Timestamp}
use ai_development_os.Policy.Model.{
  action_rank, risk_rank, approver_rank, ApprovalScope, ApprovalEvidence, ApprovalUsage, one_shot,
  reusable, ApprovalResult, approved, refused, RequesterKind, model_requester, PolicyRequest,
  ApprovalRequirement, approval_denied,
}
use ai_development_os.Policy.Rules.{Judgement, deny_if}

-- `scopeCovers`.
abbrev pub covers : Option String → Option String → Bool
covers none requested = true
covers (some granted) requested = some granted == requested

unfoldable pub scope_covers : ApprovalScope → ApprovalScope → Bool
scope_covers granted requested =
    covers granted.project_id requested.project_id
    && (covers granted.task_id requested.task_id
        && (covers granted.provider_instance_id requested.provider_instance_id
            && (covers granted.workspace_id requested.workspace_id
                && (covers granted.operation_id requested.operation_id
                    && covers granted.trace_id requested.trace_id))))

abbrev pub is_unset : Option Timestamp → Bool
is_unset none = true
is_unset (some at) = false

abbrev pub is_refused : ApprovalResult → Bool
is_refused refused = true
is_refused approved = false

abbrev pub is_reusable : ApprovalUsage → Bool
is_reusable reusable = true
is_reusable one_shot = false

abbrev pub is_model : RequesterKind → Bool
is_model model_requester = true
is_model _ = false

-- Evidence of the same request, of the same subject, that is in force.
abbrev pub is_current : ApprovalRequirement → Timestamp → ApprovalEvidence → Bool
is_current r now item =
    item.approval_request_id == r.approval_request_id
    && (item.subject_digest == r.subject_digest
        && (is_unset item.revoked_at && text_ltb now item.expires_at))

unfoldable pub refuses : ApprovalRequirement → Timestamp → ApprovalEvidence → Bool
refuses r now item = is_current r now item && is_refused item.result

unfoldable pub grants : PolicyRequest → ApprovalRequirement → Timestamp → ApprovalEvidence → Bool
grants request r now item =
    is_current r now item
    && (nat_beq (action_rank item.action) (action_rank r.action)
        && (nat_beq (risk_rank item.risk) (risk_rank r.risk)
            && (scope_covers item.scope request.scope
                && (nat_beq (approver_rank item.approver_class) (approver_rank r.approver_class)
                    && (not (is_refused item.result)
                        && (is_reusable item.usage || is_unset item.consumed_at))))))

-- What the loop over the requirements keeps.
pub record Approvals : Type 0 where
  pub judgement : Judgement
  pub missing : List ApprovalRequirement
  pub consumed : List String

abbrev pub consume : ApprovalEvidence → Approvals → Approvals
consume item state =
    if is_reusable item.usage
    then state
    else record state { consumed = state.consumed ++ (item.approval_request_id ∷ []) }

-- A requirement that no current evidence refuses.
abbrev pub weigh_evidence :
    PolicyRequest → ApprovalRequirement → Option ApprovalEvidence → Approvals → Approvals
weigh_evidence request r none state = record state { missing = state.missing ++ (r ∷ []) }
weigh_evidence request r (some item) state =
    if is_model request.requester_kind
    then record state { missing = state.missing ++ (r ∷ []) }
    else consume item state

unfoldable pub weigh_approval :
    PolicyRequest → Timestamp → ApprovalRequirement → Approvals → Approvals
weigh_approval request now r state =
    if any (refuses r now) request.approval_evidence
    then record state { judgement = deny_if true approval_denied state.judgement }
    else weigh_evidence request r (find? (grants request r now) request.approval_evidence) state

unfoldable pub weigh_approvals :
    PolicyRequest → Timestamp → List ApprovalRequirement → Approvals → Approvals
weigh_approvals request now [] state = state
weigh_approvals request now (r ∷ rest) state =
    weigh_approvals request now rest (weigh_approval request now r state)
