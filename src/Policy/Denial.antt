-- ===== src/Policy/Denial.antt =====
-- packages/policy/src/policy.ts: when `evaluate` denies an action whatever approvals come with it.
use ai_development_os.Prelude.{
  ◌≡◌, refl, sym, ◌∙◌, ap, true, false, Option, some, none, List, [], ◌∷◌, All, any, arith, ◌⊎◌,
  inl, inr, Bool-cases,
}
use ai_development_os.Domain.Guards.{Timestamp}
use ai_development_os.Policy.Model.{
  ApprovalEvidence, PolicyRule, PolicyRequest, ApprovalRequirement, denied, RedactionKind,
}
use ai_development_os.Policy.Rules.{
  Judgement, deny_if, is_deny, is_permission, matched_rules, start,
}
use ai_development_os.Policy.Approvals.{
  Approvals, refuses, is_model, is_reusable, weigh_evidence, weigh_approval, weigh_approvals,
}
use ai_development_os.Policy.Broker.{Broker, decide, judged, evaluate}
use ai_development_os.Policy.Clearance.{judge_request-Cleared}
use ai_development_os.Policy.Heeding.{apply_rules-Heeded}
use ai_development_os.Policy.Permission.{apply_rules-permission}

weigh_evidence-same :
    (request : PolicyRequest) (r : ApprovalRequirement) (o : Option ApprovalEvidence)
    (s : Approvals)
    → (weigh_evidence request r o s).judgement ≡ s.judgement
weigh_evidence-same request r none s = refl
weigh_evidence-same request r (some item) s = elim (Bool-cases (is_model request.requester_kind)) [
  | inl machine ↦ rw machine refl
  | inr person ↦ elim (Bool-cases (is_reusable item.usage)) [
    | inl again ↦ rw (person, again) refl
    | inr once ↦ rw (person, once) refl
  ]
]

weigh_approval-denied :
    (request : PolicyRequest) (now : Timestamp) (r : ApprovalRequirement) (s : Approvals)
    → s.judgement.is_denied ≡ true
    → (weigh_approval request now r s).judgement.is_denied ≡ true
unfolding weigh_approval deny_if
weigh_approval-denied request now r s h =
    elim (Bool-cases (any (refuses r now) request.approval_evidence)) [
      | inl refused_it ↦ rw (refused_it, weigh_approval) refl
      | inr calm ↦
          rw (calm, weigh_approval)
            (ap (λ (j : Judgement). j.is_denied) (weigh_evidence-same request r _ s) ∙ h)
    ]

weigh_approvals-denied :
    (request : PolicyRequest) (now : Timestamp) (rs : List ApprovalRequirement) (s : Approvals)
    → s.judgement.is_denied ≡ true
    → (weigh_approvals request now rs s).judgement.is_denied ≡ true
unfolding weigh_approvals
weigh_approvals-denied request now [] s h = h
weigh_approvals-denied request now (r ∷ rs) s h =
    weigh_approvals-denied request now rs _ (weigh_approval-denied request now r s h)

decide-denied :
    (broker : Broker) (matched : List PolicyRule) (request : PolicyRequest)
    (missing : List RedactionKind) (state : Approvals)
    → state.judgement.is_denied ≡ true
    → (decide broker matched request missing state).outcome ≡ denied
unfolding decide
decide-denied broker matched request missing state h = rw (h, decide) refl

none_denies :
    (P : PolicyRule → Type 0) (rules : List PolicyRule)
    → ((rule : PolicyRule) → P rule → is_deny rule.effect ≡ false)
    → All P rules
    → any (λ rule. is_deny rule.effect) rules ≡ false
none_denies P [] f h = refl
none_denies P (rule ∷ rules) f (here, there) =
    let first = f rule here in
    let others = none_denies P rules f there in ground (arith, first, others)

module _ (broker : Broker) (request : PolicyRequest) (now : Timestamp) where
  -- A judgement that denies nothing has a matching rule that permits and none that denies.
  judged-mixed :
      (judged broker request now).is_denied ≡ false
      → (any (λ rule. is_deny rule.effect) (matched_rules broker.rules request) ≡ false)
        × (any (λ rule. is_permission rule.effect) (matched_rules broker.rules request) ≡ true)
  judged-mixed h =
      let matched = matched_rules broker.rules request in
      let cleared = judge_request-Cleared matched request _ h in
      let (_, heeded) =
        apply_rules-Heeded broker.request_id request now matched (start request)
          cleared.extends.was_clear in
      (
        none_denies _ matched (λ rule heed. heed.not_denying) heeded,
        sym (apply_rules-permission broker.request_id request now matched (start request))
            ∙ cleared.permitted,
      )

  -- Denial has the last word, and is the default: an action is denied, and not only held for conditions,
  -- when one matching rule denies it or no matching rule permits it, whatever evidence of approvals the
  -- request carries.
  pub evaluate-denied :
      (any (λ rule. is_deny rule.effect) (matched_rules broker.rules request) ≡ true)
        ⊎ (any (λ rule. is_permission rule.effect) (matched_rules broker.rules request) ≡ false)
      → (evaluate broker request now).outcome ≡ denied
  unfolding evaluate
  evaluate-denied cause = elim (Bool-cases (judged broker request now).is_denied) [
    | inl it_is ↦ decide-denied broker _ request _ _ (weigh_approvals-denied request now _ _ it_is)
    | inr it_is_not ↦
        let (none_does, one_may) = judged-mixed it_is_not in
        elim cause [
          | inl denying ↦ absurd (cc (none_does, denying))
          | inr unpermitted ↦ absurd (cc (one_may, unpermitted))
        ]
  ]
