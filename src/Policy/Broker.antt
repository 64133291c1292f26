-- ===== src/Policy/Broker.antt =====
-- packages/policy/src/policy.ts: the decision of `evaluate`. The rules are in the order of authority and id.
-- `request_id` is `idSource`, or the digest that stands for it, and the two orders of texts are
-- `localeCompare` and the default one of `sort`.
use ai_development_os.Prelude.{
  String, Bool, true, false, not, ◌&&◌, ◌||◌, List, [], ◌∷◌, ◌++◌, map, filter, if◌then◌else◌,
  string_eq, option_eq,
}
use ai_development_os.Domain.Guards.{Timestamp}
use ai_development_os.Policy.Model.{
  redaction_rank, capability_rank, RedactionKind, personal_data, proprietary_identifiers, secrets,
  PolicyCapability, commands, data_retention, image_input, model_training, network,
  repository_editing, resumability, streaming, structured_output, tool_calling, includes,
  PolicyRule, PolicyRequest, ApprovalRequirement, conditions_required, PolicyOutcome, allowed,
  denied, conditional, PolicyDecision,
}
use ai_development_os.Policy.Rules.{Judgement, is_empty, matched_rules, apply_rules, start}
use ai_development_os.Policy.Checks.{is_unspecified, judge_request}
use ai_development_os.Policy.Approvals.{Approvals, weigh_approvals}

pub record Broker : Type 0 where
  pub rules : List PolicyRule
  pub request_id : PolicyRule → PolicyRequest → String
  pub collates_before : String → String → Bool
  pub text_before : String → String → Bool

-- `sort`, which keeps equal items in their order.
abbrev pub insert_before {ℓ} : {A : Type ℓ} → (A → A → Bool) → A → List A → List A
insert_before before x [] = x ∷ []
insert_before before x (y ∷ ys) =
    let later = insert_before before x ys in if before y x then y ∷ later else x ∷ y ∷ ys

abbrev pub sorted_with {ℓ} : {A : Type ℓ} → (A → A → Bool) → List A → List A
sorted_with before [] = []
sorted_with before (x ∷ xs) = insert_before before x (sorted_with before xs)

-- `[...set].sort()`: the kinds in the order of their texts.
abbrev pub sorted_transformations : List RedactionKind → List RedactionKind
sorted_transformations ts =
    filter (λ t. includes redaction_rank ts t)
      (personal_data ∷ proprietary_identifiers ∷ secrets ∷ [])

abbrev pub sorted_capabilities : List PolicyCapability → List PolicyCapability
sorted_capabilities cs =
    filter (λ c. includes capability_rank cs c)
      (commands ∷ data_retention ∷ image_input ∷ model_training ∷ network ∷ repository_editing
        ∷ resumability ∷ streaming ∷ structured_output ∷ tool_calling ∷ [])

abbrev pub outcome_of : Bool → Bool → PolicyOutcome
outcome_of true waits = denied
outcome_of false true = conditional
outcome_of false false = allowed

-- The decision, of what is judged and what is missing.
unfoldable pub decide :
    Broker → List PolicyRule → PolicyRequest → List RedactionKind → Approvals → PolicyDecision
decide broker matched request missing_transformations state =
    let j = state.judgement in
    let waits =
      not (is_empty missing_transformations)
      || (not (is_empty state.missing) || (j.requires_local && is_unspecified request.locality)) in
    record {
      outcome = outcome_of j.is_denied waits;
      reasons =
          (if not j.is_denied && waits then j.reasons ++ (conditions_required ∷ []) else j.reasons);
      matched_rule_ids = map (λ (rule : PolicyRule). rule.id) matched;
      required_transformations = missing_transformations;
      required_approvals = state.missing;
      requires_local = j.requires_local;
      input_allowed = j.input_allowed;
      output_allowed = j.output_allowed;
      retention_allowed = j.retention_allowed;
      max_days = j.max_days;
      capability_constraints = sorted_capabilities j.forbidden;
      approvals_to_consume = sorted_with broker.text_before state.consumed;
    }

abbrev pub judged : Broker → PolicyRequest → Timestamp → Judgement
judged broker request now =
    let matched = matched_rules broker.rules request in
    judge_request matched request
      (apply_rules broker.request_id request now matched (start request))

abbrev pub missing_of : PolicyRequest → Judgement → List RedactionKind
missing_of request j =
    filter (λ t. not (includes redaction_rank request.transformations_applied t))
      (sorted_transformations j.transformations)

abbrev pub weighed : Broker → PolicyRequest → Timestamp → Judgement → Approvals
weighed broker request now j =
    weigh_approvals request now
      (sorted_with
        (λ (a b : ApprovalRequirement).
          broker.collates_before a.approval_request_id b.approval_request_id)
        j.approvals)
      (record { judgement = j; missing = []; consumed = [] })

unfoldable pub evaluate : Broker → PolicyRequest → Timestamp → PolicyDecision
evaluate broker request now =
    let j = judged broker request now in
    decide broker (matched_rules broker.rules request) request (missing_of request j)
      (weighed broker request now j)
