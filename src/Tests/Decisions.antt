-- ===== src/Tests/Decisions.antt =====
-- The promotion of a candidate with five wins, and its rollback on errors.
use e2h.Prelude.{decide, ℕ, ◌≤◌, ◌≡◌, refl, true, none, some, List, [], ◌∷◌, number_eq, arith}
use e2h.Result.{ok}
use e2h.Promotion.Evidence.{
  PromotionEvidenceRole-discrete, PromotionCheck, validated_report, validated_reports,
  share_commitment, validated_policy, validated_proposal, validated_check,
}
use e2h.Promotion.Gate.{
  comb, sum_comb, exact_one_sided_mcnemar_tail, report_for, reasons_of, check_rule, check_rules,
  promotion_checks,
}
use e2h.Promotion.Decision.{
  PromotionDecisionKind-discrete, same_reasons, same_check, same_checks, validated_decision,
  built_decision, evaluate_promotion,
}
use e2h.Promotion.Decision.Accepted.{evaluate_promotion-accepted}
use e2h.Promotion.Decision.Promoted.{AllMeet}
use e2h.Promotion.Receipt.{
  RollbackTrigger, validated_trigger, validated_plan, validated_receipt, materialize_promotion,
}
use e2h.Promotion.Receipt.Bound.{materialize_promotion-accepted, materialize_promotion-AllMeet}
use e2h.Promotion.Rollback.{
  RollbackEvent, window_or, trigger_for, compares, built_event, record_rollback,
}
use e2h.Promotion.Rollback.Fires.{record_rollback-fires, record_rollback-accepted}
use e2h.Tests.Evidence.{
  thousandths, old_variant, new_variant, five_wins, one_rule, gate, change, digests, passed,
  promoted, numbers, seals, on_errors, plan, receipt,
}

gate_holds : validated_policy thousandths gate ≡ ok gate
unfolding validated_policy
gate_holds = refl

change_holds : validated_proposal thousandths change ≡ ok change
unfolding validated_proposal validated_reports validated_report share_commitment
    PromotionEvidenceRole-discrete
change_holds = refl

checks_made : promotion_checks thousandths digests.report gate change ≡ ok (passed ∷ [])
unfolding promotion_checks check_rules check_rule report_for reasons_of exact_one_sided_mcnemar_tail
    sum_comb comb PromotionEvidenceRole-discrete validated_check decide
checks_made = refl

promoted_holds : validated_decision thousandths digests promoted ≡ ok promoted
unfolding validated_decision validated_policy validated_proposal validated_reports validated_report
    share_commitment promotion_checks check_rules check_rule report_for reasons_of
    exact_one_sided_mcnemar_tail sum_comb comb PromotionEvidenceRole-discrete
    PromotionDecisionKind-discrete validated_check same_checks same_check same_reasons decide
promoted_holds = refl

evaluate_promotion-accepted_example :
    (checks : List (PromotionCheck ℕ)) × (promotion_checks thousandths digests.report gate change
      ≡ ok checks)
    × (evaluate_promotion thousandths digests gate change
        ≡ ok (built_decision thousandths digests gate change checks))
unfolding PromotionEvidenceRole-discrete decide
evaluate_promotion-accepted_example =
    evaluate_promotion-accepted thousandths digests gate change gate_holds change_holds refl refl

plan_holds : validated_plan numbers plan ≡ ok plan
unfolding validated_plan validated_trigger
plan_holds = refl

-- The receipt of the promotion
materialized : materialize_promotion thousandths digests numbers seals promoted plan ≡ ok receipt
unfolding reasons_of
materialized =
    materialize_promotion-accepted thousandths digests numbers seals promoted plan promoted_holds
      plan_holds refl refl refl refl

receipt_holds : validated_receipt thousandths digests numbers seals receipt ≡ ok receipt
unfolding validated_receipt validated_plan validated_trigger validated_decision validated_policy
    validated_proposal validated_reports validated_report share_commitment promotion_checks
    check_rules check_rule report_for reasons_of exact_one_sided_mcnemar_tail sum_comb comb
    PromotionEvidenceRole-discrete PromotionDecisionKind-discrete validated_check same_checks
    same_check same_reasons decide
receipt_holds = refl

materialize_promotion-accepted_example :
    materialize_promotion thousandths digests numbers seals promoted plan ≡ ok receipt
unfolding reasons_of
materialize_promotion-accepted_example =
    materialize_promotion-accepted thousandths digests numbers seals promoted plan promoted_holds
      plan_holds refl refl refl refl

materialize_promotion-AllMeet_example :
    (receipt.decision ≡ promoted)
    × AllMeet thousandths (five_wins ∷ []) (one_rule ∷ [])
    × (receipt.active_variant ≡ new_variant)
    × (receipt.previous_variant ≡ old_variant)
    × (receipt.rollback.target_variant ≡ old_variant)
materialize_promotion-AllMeet_example =
    materialize_promotion-AllMeet thousandths digests numbers seals promoted plan receipt
      materialized

-- Eleven errors in thirty samples
abbrev event : RollbackEvent ℕ ℕ
event =
    built_event thousandths digests numbers seals (λ t. true) (λ id. true) "event" receipt on_errors
      "errors" 11 30 "ops" 7 none

record_rollback-accepted_example :
    record_rollback thousandths digests numbers seals
      (λ t. true)
      (λ id. true)
      "event"
      receipt
      "errors"
      11
      30
      "ops"
      7
      none
    ≡ ok event
unfolding trigger_for
record_rollback-accepted_example =
    record_rollback-accepted thousandths digests numbers seals (λ t. true) (λ id. true) "event"
      receipt "errors" 11 30 "ops" 7 none on_errors receipt_holds refl refl refl refl refl
      (omega arith) refl refl

recorded :
    record_rollback thousandths digests numbers seals
      (λ t. true)
      (λ id. true)
      "event"
      receipt
      "errors"
      11
      30
      "ops"
      7
      none
    ≡ ok event
unfolding trigger_for
recorded =
    record_rollback-accepted thousandths digests numbers seals (λ t. true) (λ id. true) "event"
      receipt "errors" 11 30 "ops" 7 none on_errors receipt_holds refl refl refl refl refl
      (omega arith) refl refl

record_rollback-fires_example :
    (t : RollbackTrigger ℕ) × (trigger_for "errors" (on_errors ∷ []) ≡ some t)
    × (t.id ≡ "errors")
    × (t.min_samples ≤ 30)
    × (window_or none t ≡ t.window_seconds)
    × (compares numbers t.operator 11 t.threshold ≡ true)
    × (event.from_variant ≡ new_variant)
    × (event.to_variant ≡ old_variant)
record_rollback-fires_example =
    record_rollback-fires thousandths digests numbers seals (λ t. true) (λ id. true) "event" receipt
      "errors" 11 30 "ops" 7 none event recorded
