-- ===== src/Promotion/Decision/Promoted.antt =====
-- What the evidence of a promoted variant is known to show: `PromotionDecision` recomputes every
-- check, so that a decision to promote cannot be made by hand.
use e2h.Prelude.{
  ◌+◌, ◌*◌, ◌≤◌, ◌<◌, ◌≡◌, ◌∙◌, ap, refl, true, String, some, List, [], ◌∷◌, all, text_eq,
  number_eq, Eq, Option-cases, inl, inr, arith,
}
use e2h.Result.{ok, collect, Result-cases}
use e2h.Promotion.Evidence.{
  role_eq, Scores, PairedEvaluationReport, PromotionGateRule, PromotionGatePolicy,
  PromotionProposal, PromotionCheck, is_empty, validated_policy, validated_proposal,
  validated_check,
}
use e2h.Promotion.Gate.{
  exact_one_sided_mcnemar_tail, report_for, reasons_of, check_of, check_rule, check_rules,
  promotion_checks,
}
use e2h.Promotion.Decision.{
  promote, kind_eq, PromotionDecision, Digests, same_check, same_checks, validated_decision,
}

module _ {S : Type 0} ⦃e : Eq S⦄ (scores : Scores S) where
  -- The report meets the thresholds of the rule, in exact arithmetic.
  pub record Meets (rule : PromotionGateRule S) (r : PairedEvaluationReport S) : Type 0 where
    pub enough_examples : rule.min_total ≤ r.total
    pub better : r.counts.baseline_only_correct < r.counts.candidate_only_correct
    pub score_reached :
        (scores.as_fraction rule.min_candidate_score).numerator * r.total
        ≤ (r.counts.both_correct + r.counts.candidate_only_correct)
          * (scores.as_fraction rule.min_candidate_score).denominator
    pub improvement_reached :
        (scores.as_fraction rule.min_absolute_improvement).numerator * r.total
          + r.counts.baseline_only_correct
            * (scores.as_fraction rule.min_absolute_improvement).denominator
        ≤ r.counts.candidate_only_correct
          * (scores.as_fraction rule.min_absolute_improvement).denominator
    pub enough_discordant :
        rule.min_discordant_pairs ≤ r.counts.candidate_only_correct + r.counts.baseline_only_correct
    pub unlikely :
        (exact_one_sided_mcnemar_tail r.counts.candidate_only_correct
            r.counts.baseline_only_correct).numerator
          * (scores.as_fraction rule.max_one_sided_p_value).denominator
        ≤ (scores.as_fraction rule.max_one_sided_p_value).numerator
          * (exact_one_sided_mcnemar_tail r.counts.candidate_only_correct
              r.counts.baseline_only_correct).denominator

  -- Each rule has a report of its role that meets it.
  abbrev pub AllMeet : List (PairedEvaluationReport S) → List (PromotionGateRule S) → Type 0
  AllMeet reports [] = Unit
  AllMeet reports (rule ∷ rules) =
      (r : PairedEvaluationReport S) × (report_for rule.role reports ≡ some r)
      × Meets rule r
      × AllMeet reports rules

  reasons-Meets :
      (sha : PairedEvaluationReport S → String) (rule : PromotionGateRule S)
      (r : PairedEvaluationReport S)
      → is_empty (reasons_of scores sha rule r) ≡ true
      → Meets rule r
  unfolding reasons_of
  reasons-Meets sha rule r h = record {
    enough_examples = ground (arith, h);
    better = ground (arith, h);
    score_reached = ground (arith, h);
    improvement_reached = ground (arith, h);
    enough_discordant = ground (arith, h);
    unlikely = ground (arith, h);
  }

  validated_check-same : (c c' : PromotionCheck S) → validated_check scores c ≡ ok c' → c ≡ c'
  unfolding validated_check
  validated_check-same c c' h = ground (arith, h)

  check_rule-Meets :
      (sha : PairedEvaluationReport S → String) (proposal : PromotionProposal S)
      (rule : PromotionGateRule S) (c : PromotionCheck S)
      → check_rule scores sha proposal rule ≡ ok c
      → c.passed ≡ true
      → (r : PairedEvaluationReport S) × (report_for rule.role proposal.evidence ≡ some r)
        × Meets rule r
  unfolding check_rule
  check_rule-Meets sha proposal rule c h passed =
      elim (Option-cases (report_for rule.role proposal.evidence)) [
        | inl none_found ↦ absurd (ground (arith, h, none_found))
        | inr (r, found) ↦
            let valid : validated_check scores (check_of scores sha rule r) ≡ ok c =
              ground (arith, h, found) in
            let same = validated_check-same (check_of scores sha rule r) c valid in
            (r, found, reasons-Meets sha rule r (ap (λ k. k.passed) same ∙ passed))
      ]

  check_rules-AllMeet :
      (sha : PairedEvaluationReport S → String) (proposal : PromotionProposal S)
      (rules : List (PromotionGateRule S)) (checks : List (PromotionCheck S))
      → check_rules scores sha proposal rules ≡ ok checks
      → all (λ c. c.passed) checks ≡ true
      → AllMeet proposal.evidence rules
  unfolding check_rules
  check_rules-AllMeet sha proposal [] checks h passed = tt
  check_rules-AllMeet sha proposal (rule ∷ rules) checks h passed =
      elim (Result-cases (check_rule scores sha proposal rule)) [
        | inr (problem, refused) ↦ absurd (ground (arith, h, refused))
        | inl (c, made) ↦ elim (Result-cases (check_rules scores sha proposal rules)) [
          | inr (problem, refused) ↦ absurd (ground (arith, h, made, refused))
          | inl (others, made') ↦
              let same : c ∷ others ≡ checks = ground (arith, h, made, made') in
              let all_passed : all (λ k. k.passed) (c ∷ others) ≡ true =
                ap (all (λ k. k.passed)) same ∙ passed in
              let (r, found, meets) =
                check_rule-Meets sha proposal rule c made (ground (arith, all_passed)) in
              (
                r,
                found,
                meets,
                check_rules-AllMeet sha proposal rules others made' (ground (arith, all_passed)),
              )
        ]
      ]

  same_checks-passed :
      (checks others : List (PromotionCheck S))
      → same_checks checks others ≡ true
      → all (λ c. c.passed) checks ≡ true
      → all (λ c. c.passed) others ≡ true
  unfolding same_checks same_check
  same_checks-passed [] [] h passed = refl
  same_checks-passed [] (o ∷ others) h passed = absurd (ground (arith, h))
  same_checks-passed (c ∷ checks) [] h passed = absurd (ground (arith, h))
  same_checks-passed (c ∷ checks) (o ∷ others) h passed = ground (
    arith,
    h,
    passed,
    same_checks-passed checks others (ground (arith, h)) (ground (arith, passed)),
  )

  promotion_checks-AllMeet :
      (sha : PairedEvaluationReport S → String) (policy : PromotionGatePolicy S)
      (proposal : PromotionProposal S) (checks : List (PromotionCheck S))
      → promotion_checks scores sha policy proposal ≡ ok checks
      → all (λ c. c.passed) checks ≡ true
      → AllMeet proposal.evidence policy.rules
  unfolding promotion_checks
  promotion_checks-AllMeet sha policy proposal checks h passed =
      check_rules-AllMeet sha proposal policy.rules checks (ground (arith, h)) passed

  -- A decision that the validator accepts and that says promote has, for each rule of its policy,
  -- a report of the rule's role in its proposal that meets every threshold of the rule: enough
  -- examples, more wins than losses, the least score and improvement, enough discordant pairs and
  -- a p-value that is small enough, all in exact arithmetic.
  pub promoted-AllMeet :
      (digests : Digests S) (d : PromotionDecision S)
      → validated_decision scores digests d ≡ ok d
      → d.decision ≡ promote
      → AllMeet d.proposal.evidence d.policy.rules
  unfolding validated_decision
  promoted-AllMeet digests d h promotes = elim (Result-cases (validated_policy scores d.policy)) [
    | inr (problem, refused) ↦ absurd (ground (arith, h, refused))
    | inl (p, v) ↦ elim (Result-cases (validated_proposal scores d.proposal)) [
      | inr (problem, refused) ↦ absurd (ground (arith, h, v, refused))
      | inl (q, w) ↦ elim (Result-cases (collect (validated_check scores) d.checks)) [
        | inr (problem, refused) ↦ absurd (ground (arith, h, v, w, refused))
        | inl (cs, valid) ↦
            elim (Result-cases (promotion_checks scores digests.report d.policy d.proposal)) [
              | inr (problem, refused) ↦ absurd (ground (arith, h, v, w, valid, refused))
              | inl (expected, made) ↦
                  promotion_checks-AllMeet digests.report d.policy d.proposal expected made (
                    same_checks-passed d.checks expected (ground (arith, h, v, w, valid, made)) (
                      ground (
                        arith,
                        h,
                        v,
                        w,
                        valid,
                        made,
                        kind_eq.equal_iff d.decision promote,
                        promotes,
                      )))
            ]
      ]
    ]
  ]
