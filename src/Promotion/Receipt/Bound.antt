-- ===== src/Promotion/Receipt/Bound.antt =====
-- Receipts: what `materialize_promotion` accepts, and what its receipts are bound to.
use e2h.Prelude.{◌≡◌, ◌∙◌, ap, sym, true, ==-refl, text_eq, number_eq, Eq, inl, inr, arith}
use e2h.Result.{ok, collect, Result-cases}
use e2h.Promotion.Evidence.{
  Scores, VariantRef, same_variant, validated_policy, validated_proposal, validated_check,
}
use e2h.Promotion.Gate.{promotion_checks}
use e2h.Promotion.Decision.{promote, kind_eq, PromotionDecision, Digests, validated_decision}
use e2h.Promotion.Decision.Accepted.{same_variant_refl}
use e2h.Promotion.Decision.Promoted.{AllMeet, promoted-AllMeet}
use e2h.Promotion.Receipt.{
  RollbackPlan, PromotionReceipt, Metrics, Seals, validated_trigger, validated_plan,
  validated_receipt, built_receipt, materialize_promotion,
}

same_variant-equal : (v w : VariantRef) → same_variant v w ≡ true → v ≡ w
same_variant-equal v w h =
    ground (arith, h, text_eq.equal_iff v.id w.id, text_eq.equal_iff v.sha256 w.sha256)

module _ {V : Type 0} (metrics : Metrics V) where
  pub validated_plan-same :
      (plan plan' : RollbackPlan V) → validated_plan metrics plan ≡ ok plan' → plan ≡ plan'
  unfolding validated_plan
  validated_plan-same plan plan' h =
      elim (Result-cases (collect (validated_trigger metrics) plan.triggers)) [
        | inr (problem, refused) ↦ absurd (ground (arith, h, refused))
        | inl (triggers, valid) ↦ ground (arith, h, valid)
      ]

module _ {S : Type 0} ⦃e : Eq S⦄ (scores : Scores S) (digests : Digests S) where
  pub validated_decision-same :
      (d d' : PromotionDecision S) → validated_decision scores digests d ≡ ok d' → d ≡ d'
  unfolding validated_decision
  validated_decision-same d d' h = elim (Result-cases (validated_policy scores d.policy)) [
    | inr (problem, refused) ↦ absurd (ground (arith, h, refused))
    | inl (p, v) ↦ elim (Result-cases (validated_proposal scores d.proposal)) [
      | inr (problem, refused) ↦ absurd (ground (arith, h, v, refused))
      | inl (q, w) ↦ elim (Result-cases (collect (validated_check scores) d.checks)) [
        | inr (problem, refused) ↦ absurd (ground (arith, h, v, w, refused))
        | inl (cs, valid) ↦
            elim (Result-cases (promotion_checks scores digests.report d.policy d.proposal)) [
              | inr (problem, refused) ↦ absurd (ground (arith, h, v, w, valid, refused))
              | inl (expected, made) ↦ ground (arith, h, v, w, valid, made)
            ]
      ]
    ]
  ]

  module _ {V : Type 0} (metrics : Metrics V) (seals : Seals S V) where
    -- `materialize_promotion` gives a receipt for an accepted decision that promotes and an accepted
    -- plan that is bound to the decision's digest, from the candidate back to the baseline.
    pub materialize_promotion-accepted :
        (d : PromotionDecision S) (plan : RollbackPlan V)
        → validated_decision scores digests d ≡ ok d
        → validated_plan metrics plan ≡ ok plan
        → d.decision ≡ promote
        → plan.promotion_decision_sha256 ≡ digests.decision d
        → plan.active_variant ≡ d.candidate
        → plan.target_variant ≡ d.baseline
        → materialize_promotion scores digests metrics seals d plan
          ≡ ok (built_receipt scores digests metrics seals d plan)
    unfolding materialize_promotion validated_receipt
    materialize_promotion-accepted d plan v w promotes digest active target =
        rw (v, w)
          (ground (
            arith,
            kind_eq.equal_iff d.decision promote,
            promotes,
            text_eq.equal_iff plan.promotion_decision_sha256 (digests.decision d),
            digest,
            ==-refl (digests.decision d),
            ==-refl d.policy_id,
            ==-refl d.policy_sha256,
            ==-refl d.proposal_id,
            ==-refl d.proposal_sha256,
            ==-refl (seals.plan plan),
            same_variant_refl d.candidate,
            same_variant_refl d.baseline,
            ap (λ a. same_variant a d.candidate) active ∙ same_variant_refl d.candidate,
            ap (λ a. same_variant a d.baseline) target ∙ same_variant_refl d.baseline,
          ))

    -- A receipt is bound to a decision that promotes, to the variants it compares and to its plan.
    pub record Bound (r : PromotionReceipt S V) : Type 0 where
      pub decision_holds : validated_decision scores digests r.decision ≡ ok r.decision
      pub plan_holds : validated_plan metrics r.rollback ≡ ok r.rollback
      pub promotes : r.decision.decision ≡ promote
      pub from_candidate : r.active_variant ≡ r.decision.candidate
      pub to_baseline : r.previous_variant ≡ r.decision.baseline
      pub plan_from : r.rollback.active_variant ≡ r.active_variant
      pub plan_to : r.rollback.target_variant ≡ r.previous_variant

    pub receipt-Bound :
        (r r' : PromotionReceipt S V)
        → validated_receipt scores digests metrics seals r ≡ ok r'
        → (r ≡ r') × Bound r
    unfolding validated_receipt
    receipt-Bound r r' h = elim (Result-cases (validated_decision scores digests r.decision)) [
      | inr (problem, refused) ↦ absurd (ground (arith, h, refused))
      | inl (d, v) ↦ elim (Result-cases (validated_plan metrics r.rollback)) [
        | inr (problem, refused) ↦ absurd (ground (arith, h, v, refused))
        | inl (plan, w) ↦ (
          ground (arith, h, v, w),
          record {
            decision_holds = v ∙ ap ok (sym (validated_decision-same r.decision d v));
            plan_holds = w ∙ ap ok (sym (validated_plan-same metrics r.rollback plan w));
            promotes = ground (arith, h, v, w, kind_eq.equal_iff r.decision.decision promote);
            from_candidate =
                same_variant-equal r.active_variant r.decision.candidate (ground (arith, h, v, w));
            to_baseline =
                same_variant-equal r.previous_variant r.decision.baseline (ground (arith, h, v, w));
            plan_from =
                same_variant-equal r.rollback.active_variant r.active_variant
                  (ground (arith, h, v, w));
            plan_to =
                same_variant-equal r.rollback.target_variant r.previous_variant
                  (ground (arith, h, v, w));
          },
        )
      ]
    ]

    -- When `materialize_promotion` gives a receipt, its decision is the one that was passed in, each
    -- rule of the decision's policy has evidence that meets it, and the receipt goes to the candidate
    -- with a plan to return to the baseline.
    pub materialize_promotion-AllMeet :
        (d : PromotionDecision S) (plan : RollbackPlan V) (r : PromotionReceipt S V)
        → materialize_promotion scores digests metrics seals d plan ≡ ok r
        → (r.decision ≡ d)
          × AllMeet scores d.proposal.evidence d.policy.rules
          × (r.active_variant ≡ d.candidate)
          × (r.previous_variant ≡ d.baseline)
          × (r.rollback.target_variant ≡ d.baseline)
    unfolding materialize_promotion
    materialize_promotion-AllMeet d plan r h =
        elim (Result-cases (validated_decision scores digests d)) [
          | inr (problem, refused) ↦ absurd (ground (arith, h, refused))
          | inl (d', v) ↦ elim (Result-cases (validated_plan metrics plan)) [
            | inr (problem, refused) ↦ absurd (ground (arith, h, v, refused))
            | inl (plan', w) ↦
                let made : validated_receipt scores digests metrics seals
                      (built_receipt scores digests metrics seals d' plan')
                    ≡ ok r =
                  ground (arith, h, v, w) in
                let (same, bound) = receipt-Bound _ r made in
                let back : d' ≡ d = sym (validated_decision-same d d' v) in
                let holds : validated_decision scores digests d ≡ ok d = v ∙ ap ok back in
                (
                  sym (ap (λ k. k.decision) same) ∙ back,
                  promoted-AllMeet scores digests d holds
                      (ap (λ k. k.decision) (sym back) ∙ bound.promotes),
                  sym (ap (λ k. k.active_variant) same) ∙ ap (λ k. k.candidate) back,
                  sym (ap (λ k. k.previous_variant) same) ∙ ap (λ k. k.baseline) back,
                  sym (ap (λ k. k.rollback.target_variant) same)
                      ∙ bound.plan_to
                      ∙ ap (λ k. k.baseline) back,
                )
          ]
        ]
