-- ===== src/Promotion/Receipt.antt =====
-- Rollback plans and receipts of src/e2h/promotion_lifecycle.py, and `materialize_promotion` of
-- src/e2h/promotion_decision_ops.py. V is the type of metric values; the digests of plans and
-- receipts are parameters. Locators and metadata are left out.
pub mod Bound
use e2h.Prelude.{
  within, ℕ, Bool, true, false, not, ◌&&◌, ◌||◌, String, Option, List, [], ◌∷◌, map, all, ◌==◌,
  text_eq, number_eq, Eq, eq_of, all_unique, length, leb, if◌then◌else◌,
}
use e2h.Result.{Result, ok, err, refuse, collect, ◌>>=◌, ◌>>◌}
use e2h.Promotion.Evidence.{
  PromotionError, wrong_policy, wrong_proposal, wrong_length, same_variants, repeated_trigger,
  not_promoted, wrong_digest, wrong_active, wrong_target, not_finite, bad_samples, bad_window,
  Scores, VariantRef, same_variant,
}
use e2h.Promotion.Decision.{
  PromotionDecisionKind, promote, kind_eq, PromotionDecision, Digests, validated_decision,
}

pub data RollbackOperator : Type 0 where
  lt lte gt gte : RollbackOperator

pub record RollbackTrigger (V : Type 0) : Type 0 where
  pub id : String
  pub metric : String
  pub operator : RollbackOperator
  pub threshold : V
  pub min_samples : ℕ
  pub window_seconds : ℕ

pub record RollbackPlan (V : Type 0) : Type 0 where
  pub id : String
  pub promotion_decision_sha256 : String
  pub active_variant : VariantRef
  pub target_variant : VariantRef
  pub triggers : List (RollbackTrigger V)

pub record PromotionReceipt (S V : Type 0) : Type 0 where
  pub promotion_decision_sha256 : String
  pub decision : PromotionDecision S
  pub policy_id : String
  pub policy_sha256 : String
  pub proposal_id : String
  pub proposal_sha256 : String
  pub active_variant : VariantRef
  pub previous_variant : VariantRef
  pub rollback_plan_sha256 : String
  pub rollback : RollbackPlan V

-- What the program takes from Python's floats here: the comparisons and `math.isfinite`.
pub record Metrics (V : Type 0) : Type 0 where
  pub less : V → V → Bool
  pub less_or_equal : V → V → Bool
  pub is_finite : V → Bool

-- The canonical identities of plans and receipts.
pub record Seals (S V : Type 0) : Type 0 where
  pub plan : RollbackPlan V → String
  pub receipt : PromotionReceipt S V → String

module _ {V : Type 0} (metrics : Metrics V) where
  -- `RollbackTrigger(...)`
  unfoldable pub validated_trigger : RollbackTrigger V → Result PromotionError (RollbackTrigger V)
  validated_trigger t = do
    refuse (not (metrics.is_finite t.threshold)) not_finite
    refuse (not (leb 1 t.min_samples)) bad_samples
    refuse (not (within 1 31536000 t.window_seconds)) bad_window
    ok t

  -- `RollbackPlan(...)` with `plan_must_be_unambiguous`
  unfoldable pub validated_plan : RollbackPlan V → Result PromotionError (RollbackPlan V)
  validated_plan plan = do
    refuse (not (within 1 64 (length plan.triggers))) wrong_length
    triggers ← collect validated_trigger plan.triggers
    refuse (not (all_unique (map (λ t. t.id) plan.triggers))) repeated_trigger
    refuse (plan.active_variant.id == plan.target_variant.id) same_variants
    refuse (plan.active_variant.sha256 == plan.target_variant.sha256) same_variants
    ok plan

module _ {S V : Type 0} ⦃e : Eq S⦄ (scores : Scores S) (digests : Digests S) (metrics : Metrics V)
    (seals : Seals S V) where
  -- `PromotionReceipt(...)` with `embedded_artifacts_must_match`
  unfoldable pub validated_receipt :
      PromotionReceipt S V → Result PromotionError (PromotionReceipt S V)
  validated_receipt r = do
    decision ← validated_decision scores digests r.decision
    plan ← validated_plan metrics r.rollback
    refuse (not (r.decision.decision == promote)) not_promoted
    refuse (not (r.promotion_decision_sha256 == digests.decision r.decision)) wrong_digest
    refuse
        (not (r.policy_id == r.decision.policy_id && r.policy_sha256 == r.decision.policy_sha256))
        wrong_policy
    refuse
        (not (
          r.proposal_id == r.decision.proposal_id
          && r.proposal_sha256 == r.decision.proposal_sha256))
        wrong_proposal
    refuse (not (same_variant r.active_variant r.decision.candidate)) wrong_active
    refuse (not (same_variant r.previous_variant r.decision.baseline)) wrong_target
    refuse (not (r.rollback_plan_sha256 == seals.plan r.rollback)) wrong_digest
    refuse (not (r.rollback.promotion_decision_sha256 == r.promotion_decision_sha256)) wrong_digest
    refuse (not (same_variant r.rollback.active_variant r.active_variant)) wrong_active
    refuse (not (same_variant r.rollback.target_variant r.previous_variant)) wrong_target
    ok r

  abbrev pub built_receipt : PromotionDecision S → RollbackPlan V → PromotionReceipt S V
  built_receipt decision plan = record {
    promotion_decision_sha256 = digests.decision decision;
    decision = decision;
    policy_id = decision.policy_id;
    policy_sha256 = decision.policy_sha256;
    proposal_id = decision.proposal_id;
    proposal_sha256 = decision.proposal_sha256;
    active_variant = decision.candidate;
    previous_variant = decision.baseline;
    rollback_plan_sha256 = seals.plan plan;
    rollback = plan;
  }

  -- `materialize_promotion`
  unfoldable pub materialize_promotion :
      PromotionDecision S → RollbackPlan V → Result PromotionError (PromotionReceipt S V)
  materialize_promotion decision plan = do
    decision' ← validated_decision scores digests decision
    plan' ← validated_plan metrics plan
    refuse (not (decision'.decision == promote)) not_promoted
    refuse (not (plan'.promotion_decision_sha256 == digests.decision decision')) wrong_digest
    refuse (not (same_variant plan'.active_variant decision'.candidate)) wrong_active
    refuse (not (same_variant plan'.target_variant decision'.baseline)) wrong_target
    validated_receipt (built_receipt decision' plan')
