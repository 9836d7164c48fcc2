-- ===== src/Promotion/Decision/Accepted.antt =====
-- A decision that `evaluate_promotion` builds is accepted, and an accepted one that promotes has
-- evidence that meets each rule.
use e2h.Prelude.{
  within, ◌≡◌, ◌∙◌, ap, refl, Bool, true, false, not, List, [], ◌∷◌, map, any, all, ◌==◌, ==-refl,
  text_eq, number_eq, Eq, contains, all_unique, length, arith, if◌then◌else◌,
}
use e2h.Result.{ok, collect}
use e2h.Promotion.Evidence.{
  role_eq, GateReason, Scores, PromotionGatePolicy, PromotionProposal, PromotionCheck, VariantRef,
  same_variant, validated_policy, validated_proposal, validated_check,
}
use e2h.Promotion.Gate.{check_rules, promotion_checks}
use e2h.Promotion.Decision.{
  PromotionDecisionKind, promote, reject, kind_eq, Digests, same_flag, same_reason, same_reasons,
  same_check, same_checks, built_decision, validated_decision, evaluate_promotion,
}
use e2h.Promotion.Decision.Checks.{reports-AllFit, AreChecks, check_rules-AreChecks}
use e2h.Promotion.Decision.Distinct.{AreChecks-roles, AreChecks-length, AreChecks-unique}

same_reason_refl : (r : GateReason) → same_reason r r ≡ true
same_reason_refl (GateReason.total_below n k) = ground (arith, ==-refl n, ==-refl k)
same_reason_refl GateReason.not_better = refl
same_reason_refl (GateReason.score_below n k) = ground (arith, ==-refl n, ==-refl k)
same_reason_refl (GateReason.improvement_below n k) = ground (arith, ==-refl n, ==-refl k)
same_reason_refl (GateReason.discordant_below n k) = ground (arith, ==-refl n, ==-refl k)
same_reason_refl (GateReason.p_value_above n k) = ground (arith, ==-refl n, ==-refl k)

same_reasons_refl : (reasons : List GateReason) → same_reasons reasons reasons ≡ true
unfolding same_reasons
same_reasons_refl [] = refl
same_reasons_refl (r ∷ reasons) = ground (arith, same_reason_refl r, same_reasons_refl reasons)

same_flag_refl : (a : Bool) → same_flag a a ≡ true
same_flag_refl true = refl
same_flag_refl false = refl

decision-flag :
    (a : Bool)
    → same_flag ((if a then PromotionDecisionKind.promote else reject) == promote) a ≡ true
decision-flag true = ground (arith, ==-refl PromotionDecisionKind.promote)
decision-flag false = ground (arith, kind_eq.equal_iff PromotionDecisionKind.reject promote)

pub same_variant_refl : (v : VariantRef) → same_variant v v ≡ true
same_variant_refl v = ground (arith, ==-refl v.id, ==-refl v.sha256)

module _ {S : Type 0} ⦃e : Eq S⦄ where
  same_check_refl : (c : PromotionCheck S) → same_check c c ≡ true
  unfolding same_check
  same_check_refl c = ground (
    arith,
    ==-refl c.role,
    ==-refl c.evidence_id,
    ==-refl c.evidence_sha256,
    same_flag_refl c.passed,
    ==-refl c.total,
    ==-refl c.baseline_score,
    ==-refl c.candidate_score,
    ==-refl c.absolute_improvement,
    ==-refl c.discordant_pairs,
    ==-refl c.candidate_only_correct,
    ==-refl c.baseline_only_correct,
    ==-refl c.one_sided_p_value,
    same_reasons_refl c.reasons,
  )

  same_checks_refl : (checks : List (PromotionCheck S)) → same_checks checks checks ≡ true
  unfolding same_checks
  same_checks_refl [] = refl
  same_checks_refl (c ∷ checks) = ground (arith, same_check_refl c, same_checks_refl checks)

  module _ (scores : Scores S) (digests : Digests S) where
    checks_of :
        (policy : PromotionGatePolicy S) (proposal : PromotionProposal S)
        → validated_policy scores policy ≡ ok policy
        → validated_proposal scores proposal ≡ ok proposal
        → any
            (λ role. not (contains role (map (λ r. r.role) proposal.evidence)))
            (map (λ rule. rule.role) policy.rules)
          ≡ false
        → (checks : List (PromotionCheck S)) × (check_rules scores digests.report proposal
              policy.rules
            ≡ ok checks)
          × (collect (validated_check scores) checks ≡ ok checks)
          × AreChecks scores proposal.baseline proposal.candidate digests.report proposal.evidence
              policy.rules checks
    unfolding validated_policy validated_proposal
    checks_of policy proposal v w missing =
        check_rules-AreChecks scores proposal.baseline proposal.candidate digests.report proposal
          policy.rules refl refl
          (reports-AllFit scores proposal.baseline proposal.candidate proposal.evidence
            (ground (arith, w)) (ground (arith, w)) (ground (arith, w)))
          missing

    -- What the checks of valid artifacts have to satisfy.
    built_decision-accepted :
        (policy : PromotionGatePolicy S) (proposal : PromotionProposal S)
        (checks : List (PromotionCheck S))
        → validated_policy scores policy ≡ ok policy
        → validated_proposal scores proposal ≡ ok proposal
        → within 1 2 (length checks) ≡ true
        → collect (validated_check scores) checks ≡ ok checks
        → all_unique (map (λ c. c.role) checks) ≡ true
        → all_unique (map (λ c. c.evidence_id) checks) ≡ true
        → promotion_checks scores digests.report policy proposal ≡ ok checks
        → validated_decision scores digests (built_decision scores digests policy proposal checks)
          ≡ ok (built_decision scores digests policy proposal checks)
    unfolding validated_decision
    built_decision-accepted policy proposal checks v w size valid roles ids made =
        rw (v, w, valid, made)
          (ground (
            arith,
            size,
            roles,
            ids,
            ==-refl policy.id,
            ==-refl proposal.id,
            ==-refl (digests.policy policy),
            ==-refl (digests.proposal proposal),
            same_variant_refl proposal.baseline,
            same_variant_refl proposal.candidate,
            same_checks_refl checks,
            decision-flag (all (λ c. c.passed) checks),
          ))

    -- For a valid policy and a valid proposal whose evidence has exactly the roles of the rules,
    -- `evaluate_promotion` gives a decision: the checks of the rules are made, and the decision that
    -- is built from them passes `decision_must_verify_its_source_chain`.
    pub evaluate_promotion-accepted :
        (policy : PromotionGatePolicy S) (proposal : PromotionProposal S)
        → validated_policy scores policy ≡ ok policy
        → validated_proposal scores proposal ≡ ok proposal
        → any
            (λ role. not (contains role (map (λ r. r.role) proposal.evidence)))
            (map (λ rule. rule.role) policy.rules)
          ≡ false
        → any
            (λ role. not (contains role (map (λ rule. rule.role) policy.rules)))
            (map (λ r. r.role) proposal.evidence)
          ≡ false
        → (checks : List (PromotionCheck S)) × (promotion_checks scores digests.report policy
              proposal
            ≡ ok checks)
          × (evaluate_promotion scores digests policy proposal
              ≡ ok (built_decision scores digests policy proposal checks))
    unfolding evaluate_promotion promotion_checks validated_policy validated_proposal
    evaluate_promotion-accepted policy proposal v w missing unexpected =
        let (checks, made, valid, are) = checks_of policy proposal v w missing in
        let all_made : promotion_checks scores digests.report policy proposal ≡ ok checks =
          ground (arith, missing, unexpected, made) in
        let roles =
          AreChecks-roles scores proposal.baseline proposal.candidate digests.report
            proposal.evidence policy.rules checks are in
        let size =
          AreChecks-length scores proposal.baseline proposal.candidate digests.report
            proposal.evidence policy.rules checks are in
        let distinct : all_unique (map (λ rule. rule.role) policy.rules) ≡ true =
          ground (arith, v) in
        let ids =
          AreChecks-unique scores proposal.baseline proposal.candidate digests.report
            proposal.evidence policy.rules checks (ground (arith, w)) distinct are in
        (
          checks,
          all_made,
          rw (v, w, all_made)
              (built_decision-accepted policy proposal checks v w
                (ap (within 1 2) size ∙ ground (arith, v)) valid (ap all_unique roles ∙ distinct)
                ids all_made),
        )
