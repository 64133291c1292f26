-- ===== src/Policy/Heeding.antt =====
-- packages/policy/src/policy.ts: the loop over the matching rules heeds each of them.
use ai_development_os.Prelude.{
  append-nil, or-true, ◌≡◌, sym, ◌∙◌, ap, subst, String, false, ◌||◌, List, [], ◌∷◌, ◌++◌, All,
  All-map,
}
use ai_development_os.Domain.Guards.{Timestamp}
use ai_development_os.Policy.Model.{
  redaction_rank, includes, PolicyRule, PolicyRequest, ApprovalRequirement, rule_denied,
}
use ai_development_os.Policy.Rules.{
  Judgement, deny_if, is_deny, restrict, requirement, apply_rule, apply_rules,
}
use ai_development_os.Policy.Clearance.{clear}
use ai_development_os.Policy.Demands.{
  Has, Has-append, includes-append, includes-second, Gains, Gains-same, Gains-trans, Heeded,
  demand-Gains,
}

module _ (request_id : PolicyRule → PolicyRequest → String) (request : PolicyRequest)
    (now : Timestamp) where
  -- What is heeded stays so.
  Heeded-after :
      (rule : PolicyRule) (j j' : Judgement)
      → Gains j j'
      → Heeded request_id request now rule j
      → Heeded request_id request now rule j'
  Heeded-after rule j j' g h = record {
    not_denying = h.not_denying;
    redactions =
        All-map rule.required_transformations
          (λ t here.
            ap (λ ts. includes redaction_rank ts t) g.transformations_kept
            ∙ includes-append j.transformations g.new_transformations t here)
          h.redactions;
    locality = λ e. g.still_local (h.locality e);
    approval_asked = λ template e.
        let asked = h.approval_asked template e in
        record {
          digest = asked.digest;
          subject = asked.subject;
          listed =
              subst
                (λ (xs : List ApprovalRequirement).
                  Has (requirement request_id request now rule template asked.digest) xs)
                (sym g.approvals_kept)
                (Has-append (requirement request_id request now rule template asked.digest)
                  j.approvals g.new_approvals asked.listed);
        };
  }

  restrict-Gains :
      (rule : PolicyRule) (j : Judgement)
      → (deny_if (is_deny rule.effect) rule_denied j).is_denied ≡ false
      → Gains j (restrict (deny_if (is_deny rule.effect) rule_denied j) rule)
        × (is_deny rule.effect ≡ false)
  restrict-Gains rule j h = clear (is_deny rule.effect) rule_denied j h λ fine before same. (
    record {
      was_clear = before;
      new_approvals = [];
      approvals_kept = ap (λ (r : Judgement). r.approvals) same ∙ sym (append-nil j.approvals);
      new_transformations = rule.required_transformations;
      transformations_kept =
          ap (λ (r : Judgement). r.transformations ++ rule.required_transformations) same;
      still_local = λ e.
          ap (λ (r : Judgement). r.requires_local || rule.requires_local) same
          ∙ ap (λ b. b || rule.requires_local) e;
    },
    fine,
  )

  apply_rule-Heeded :
      (rule : PolicyRule) (j : Judgement)
      → (apply_rule request_id request now rule j).is_denied ≡ false
      → Gains j (apply_rule request_id request now rule j)
        × Heeded request_id request now rule (apply_rule request_id request now rule j)
  unfolding apply_rule
  apply_rule-Heeded rule j h =
      let denied_or_not = deny_if (is_deny rule.effect) rule_denied j in
      let restricted = restrict denied_or_not rule in
      let (gains, asks) =
        demand-Gains request_id request now rule rule.approval request.subject_digest restricted
          h in
      let (first, fine) = restrict-Gains rule j gains.was_clear in
      (
        Gains-trans j restricted _ first gains,
        record {
          not_denying = fine;
          redactions =
              All-map rule.required_transformations
                (λ t here.
                  ap (λ ts. includes redaction_rank ts t) gains.transformations_kept
                  ∙ includes-append restricted.transformations gains.new_transformations t here)
                (includes-second denied_or_not.transformations rule.required_transformations);
          locality = λ e. gains.still_local (
              ap (λ b. denied_or_not.requires_local || b) e ∙ or-true denied_or_not.requires_local);
          approval_asked = λ template e.
              let (digest, subject, listed) = asks template e in
              record { digest = digest; subject = subject; listed = listed };
        },
      )

  pub apply_rules-Heeded :
      (rules : List PolicyRule) (j : Judgement)
      → (apply_rules request_id request now rules j).is_denied ≡ false
      → Gains j (apply_rules request_id request now rules j)
        × All
            (λ rule.
              Heeded request_id request now rule (apply_rules request_id request now rules j))
            rules
  unfolding apply_rules
  apply_rules-Heeded [] j h = (Gains-same j h, tt)
  apply_rules-Heeded (rule ∷ rules) j h =
      let (later, others) = apply_rules-Heeded rules (apply_rule request_id request now rule j) h in
      let (gains, heeded) = apply_rule-Heeded rule j later.was_clear in
      (Gains-trans j _ _ gains later, (Heeded-after rule _ _ later heeded, others))
