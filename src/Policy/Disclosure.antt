-- ===== src/Policy/Disclosure.antt =====
-- packages/policy/src/policy.ts, packages/domain/src/classification.ts: a disclosure that `evaluate` allows
-- obeys the handling policy of the request.
use ai_development_os.Prelude.{
  or-true, ◌≡◌, refl, sym, ◌∙◌, ap, subst, true, false, some, All, All-map, arith,
}
use ai_development_os.Domain.Guards.{Timestamp}
use ai_development_os.Policy.Model.{
  redaction_rank, includes, DataHandlingPolicy, ProviderDescriptor, PolicyRequest, allowed,
}
use ai_development_os.Policy.Rules.{Judgement, discloses, evaluate_disclosure, judge_disclosure}
use ai_development_os.Policy.Checks.{is_local_request}
use ai_development_os.Policy.Broker.{Broker, judged, evaluate}
use ai_development_os.Policy.Clearance.{clear}
use ai_development_os.Policy.Demands.{includes-second}
use ai_development_os.Policy.Decisions.{nothing_missing}
use ai_development_os.Policy.Permission.{Settled, evaluate-Settled, placed_locally, applied_rules}

-- What a judgement that denies nothing makes of a disclosure.
pub record Discloses (policy : DataHandlingPolicy) (p : ProviderDescriptor) (j' : Judgement)
    : Type 0 where
  pub may_be_cloud : p.is_cloud ≡ true → policy.cloud_providers_allowed ≡ true
  pub not_cloud : policy.local_execution_required ≡ true → p.is_cloud ≡ false
  pub may_retain : p.retains_data ≡ true → policy.disallows_retention ≡ false
  pub may_train : p.trains_on_inputs ≡ true → policy.disallows_training ≡ false
  pub asks_redactions :
      p.is_cloud ≡ true
      → All
          (λ t. includes redaction_rank j'.transformations t ≡ true)
          policy.redactions_required_before_disclosure
  pub asks_local : policy.local_execution_required ≡ true → j'.requires_local ≡ true

evaluate_disclosure-Discloses :
    (policy : DataHandlingPolicy) (p : ProviderDescriptor) (j : Judgement)
    → (evaluate_disclosure policy p j).is_denied ≡ false
    → Discloses policy p (evaluate_disclosure policy p j)
unfolding evaluate_disclosure
evaluate_disclosure-Discloses policy p j h = clear _ _ _ h λ uses h1 _.
    clear _ _ _ h1 λ retains h2 _. clear _ _ _ h2 λ place h3 _. clear _ _ _ h3 λ cloud h4 _.
      record {
        may_be_cloud = λ e. ground (arith, e, cloud);
        not_cloud = λ e. ground (arith, e, place);
        may_retain = λ e. ground (arith, e, retains);
        may_train = λ e. ground (arith, e, uses);
        asks_redactions =
            λ e. rw e (includes-second _ policy.redactions_required_before_disclosure);
        asks_local = λ e. rw e (or-true _);
      }

-- A disclosure to a provider, as the handling policy of the request has it.
pub record Disclosed (request : PolicyRequest) (p : ProviderDescriptor) : Type 0 where
  pub cloud : p.is_cloud ≡ true → request.handling_policy.cloud_providers_allowed ≡ true
  pub retention : p.retains_data ≡ true → request.handling_policy.disallows_retention ≡ false
  pub training : p.trains_on_inputs ≡ true → request.handling_policy.disallows_training ≡ false
  pub redacted :
      p.is_cloud ≡ true
      → All
          (λ t. includes redaction_rank request.transformations_applied t ≡ true)
          request.handling_policy.redactions_required_before_disclosure
  pub stays_local :
      request.handling_policy.local_execution_required ≡ true
      → (p.is_cloud ≡ false) × (is_local_request request.locality ≡ true)

module _ (broker : Broker) (request : PolicyRequest) (now : Timestamp)
    (p : ProviderDescriptor) where
  Settled-Discloses :
      (applied j : Judgement)
      → discloses request.action ≡ true
      → request.provider ≡ some p
      → Settled broker request now applied j
      → Discloses request.handling_policy p j
  unfolding judge_disclosure
  Settled-Discloses applied j action provider s =
      let judged_so : j ≡ evaluate_disclosure request.handling_policy p applied =
        s.cleared.disclosure
        ∙ ap (λ o. judge_disclosure request o applied) provider
        ∙ rw (action, judge_disclosure) refl in
      subst (Discloses request.handling_policy p) (sym judged_so) (
        evaluate_disclosure-Discloses request.handling_policy p applied
          (ap (λ (r : Judgement). r.is_denied) (sym judged_so) ∙ s.not_denied))

  -- A disclosure that the broker allows, an action of provider disclosure, model eligibility or cloud
  -- execution with a provider, obeys the handling policy of the request: the provider is in the cloud only
  -- where cloud providers are allowed, and it retains data or trains on inputs only where that is not
  -- disallowed; the redactions that are required before disclosure were applied, if it is in the cloud; and
  -- where local execution is required, the provider is not in the cloud and the request is local.
  pub evaluate-Disclosed :
      discloses request.action ≡ true
      → request.provider ≡ some p
      → (evaluate broker request now).outcome ≡ allowed
      → Disclosed request p
  evaluate-Disclosed action provider h =
      let j = judged broker request now in
      let s = evaluate-Settled broker request now h in
      let d = Settled-Discloses (applied_rules broker request now) j action provider s in
      record {
        cloud = d.may_be_cloud;
        retention = d.may_retain;
        training = d.may_train;
        redacted = λ e.
            All-map request.handling_policy.redactions_required_before_disclosure
              (λ t asked. nothing_missing request j t s.none_left asked) (d.asks_redactions e);
        stays_local = λ e. (
          d.not_cloud e,
          placed_locally broker request now (applied_rules broker request now) j s (d.asks_local e),
        );
      }
