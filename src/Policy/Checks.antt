-- ===== src/Policy/Checks.antt =====
-- packages/policy/src/policy.ts: the checks of `evaluate` that follow its loop over the rules, with
-- `capabilityAvailable`, and `findUnmetRequirements` of packages/domain/src/capabilities.ts.
use ai_development_os.Prelude.{
  ℕ, Bool, true, false, not, ◌&&◌, ◌||◌, Option, none, some, List, [], ◌∷◌, any, ltb, nat_beq,
  string_eq, option_eq,
}
use ai_development_os.Policy.Model.{
  PolicyAction, action_rank, capability_rank, classification_rank, PolicyCapability, commands,
  data_retention, image_input, model_training, network, repository_editing, resumability, streaming,
  structured_output, tool_calling, includes, Locality, local, cloud, unspecified, PolicyRule,
  ProviderDescriptor, ModelCapabilities, PolicyRequest, default_deny,
  provider_classification_unsupported, locality_mismatch, model_capability_mismatch,
  capability_forbidden, artifact_persistence_forbidden, input_logging_forbidden,
  output_logging_forbidden, retention_forbidden, local_execution, cloud_execution,
  artifact_persistence, input_logging, output_logging, retention,
}
use ai_development_os.Policy.Rules.{Judgement, deny_if, judge_disclosure}

abbrev pub has_capability : PolicyCapability → ProviderDescriptor → Bool
has_capability streaming p = p.streams
has_capability structured_output p = p.structured
has_capability tool_calling p = p.calls_tools
has_capability image_input p = p.reads_images
has_capability repository_editing p = p.edits_repositories
has_capability commands p = p.executes_commands
has_capability network p = p.accesses_network
has_capability resumability p = p.resumes
has_capability data_retention p = p.retains_data
has_capability model_training p = p.trains_on_inputs

abbrev pub capability_available : PolicyCapability → Option ProviderDescriptor → Bool
capability_available capability none = false
capability_available capability (some provider) = has_capability capability provider

abbrev pub is_action : PolicyAction → PolicyAction → Bool
is_action a b = nat_beq (action_rank a) (action_rank b)

abbrev pub is_local_request : Locality → Bool
is_local_request local = true
is_local_request _ = false

abbrev pub is_cloud_request : Locality → Bool
is_cloud_request cloud = true
is_cloud_request _ = false

abbrev pub is_unspecified : Locality → Bool
is_unspecified unspecified = true
is_unspecified _ = false

abbrev pub lacks_classification : PolicyRequest → Option ProviderDescriptor → Bool
lacks_classification request none = false
lacks_classification request (some p) =
    not (includes classification_rank p.supported_classifications request.classification)

abbrev pub asks : PolicyRequest → PolicyCapability → Bool
asks request capability = includes capability_rank request.requested_capabilities capability

-- `findUnmetRequirements(...).length > 0` for the requirements of a request.
abbrev pub has_unmet : PolicyRequest → Bool → Option ModelCapabilities → Bool
has_unmet request requires_local none = false
has_unmet request requires_local (some m) =
    (asks request tool_calling && not m.supports_tool_use)
    || ((asks request structured_output && not m.supports_structured_output)
        || ((asks request image_input && not m.supports_vision)
            || (requires_local && not m.is_local)))

unfoldable pub judge_capabilities :
    Option ProviderDescriptor → List PolicyCapability → Judgement → Judgement
judge_capabilities provider [] j = j
judge_capabilities provider (capability ∷ rest) j = judge_capabilities provider rest (
    deny_if
      (includes capability_rank j.forbidden capability
        || not (capability_available capability provider))
      capability_forbidden j)

abbrev pub exceeds : Option ℕ → Option ℕ → Bool
exceeds (some limit) (some days) = ltb limit days
exceeds _ _ = false

unfoldable pub check_allowed : Judgement → Judgement
check_allowed j = deny_if (not j.allowed_by_rule) default_deny j

-- The provider, the place and the model that the request names.
unfoldable pub check_target : PolicyRequest → Judgement → Judgement
check_target request j =
    let classified =
      deny_if (lacks_classification request request.provider) provider_classification_unsupported
        j in
    let placed =
      deny_if
        ((is_action request.action local_execution && not (is_local_request request.locality))
          || (is_action request.action cloud_execution && not (is_cloud_request request.locality)))
        locality_mismatch classified in
    deny_if (has_unmet request placed.requires_local request.model) model_capability_mismatch placed

unfoldable pub check_locality : PolicyRequest → Judgement → Judgement
check_locality request j =
    deny_if (j.requires_local && is_cloud_request request.locality) locality_mismatch j

-- What is kept of the request: artifacts, logs, data.
unfoldable pub check_keeping : List PolicyRule → PolicyRequest → Judgement → Judgement
check_keeping matched request j =
    let persisted =
      deny_if
        (is_action request.action artifact_persistence
          && (not request.handling_policy.artifact_persistence_allowed
              || any (λ rule. rule.forbid_artifact_persistence) matched))
        artifact_persistence_forbidden j in
    let read =
      deny_if (is_action request.action input_logging && not persisted.input_allowed)
        input_logging_forbidden persisted in
    let written =
      deny_if (is_action request.action output_logging && not read.output_allowed)
        output_logging_forbidden read in
    deny_if
      (is_action request.action retention
        && (not written.retention_allowed || exceeds written.max_days request.retention_days))
      retention_forbidden written

-- The checks after the loop, in their order.
unfoldable pub judge_request : List PolicyRule → PolicyRequest → Judgement → Judgement
judge_request matched request j = check_keeping matched request (
    check_locality request (
      judge_capabilities request.provider request.requested_capabilities
        (check_target request (judge_disclosure request request.provider (check_allowed j)))))
