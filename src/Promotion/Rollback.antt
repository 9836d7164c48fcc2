-- ===== src/Promotion/Rollback.antt =====
-- `rollback_triggered` and `record_rollback` of src/e2h/promotion_rollback.py, and `RollbackEvent` of
-- src/e2h/promotion_lifecycle.py. Counts are natural numbers; T is the type of times.
pub mod Triggers
pub mod Fires
use e2h.Prelude.{
  within, ℕ, Bool, true, false, not, ◌&&◌, ◌||◌, String, Option, none, some, List, [], ◌∷◌, ◌==◌,
  text_eq, number_eq, Eq, leb, ltb, if◌then◌else◌,
}
use e2h.Result.{Result, ok, err, refuse, ◌>>=◌, ◌>>◌}
use e2h.Promotion.Evidence.{
  PromotionError, same_variants, not_finite, naive_time, bad_samples, bad_window, wrong_window,
  unknown_trigger, not_triggered, bad_identifier, Scores, VariantRef,
}
use e2h.Promotion.Decision.{Digests}
use e2h.Promotion.Receipt.{
  RollbackOperator, lt, lte, gt, gte, RollbackTrigger, PromotionReceipt, Metrics, Seals,
  validated_trigger, validated_receipt,
}

pub record RollbackEvent (V T : Type 0) : Type 0 where
  pub id : String
  pub promotion_receipt_sha256 : String
  pub from_variant : VariantRef
  pub to_variant : VariantRef
  pub trigger_id : String
  pub observed_value : V
  pub observed_samples : ℕ
  pub observed_window_seconds : ℕ
  pub actor : String
  pub occurred_at : T

-- `observed_window_seconds` or the trigger's own window
abbrev pub window_or : {V : Type 0} → Option ℕ → RollbackTrigger V → ℕ
window_or none trigger = trigger.window_seconds
window_or (some seconds) trigger = seconds

-- `{trigger.id: trigger for trigger in triggers}.get(trigger_id)`: a later trigger wins.
unfoldable pub trigger_for :
    {V : Type 0} → String → List (RollbackTrigger V) → Option (RollbackTrigger V)
trigger_for id [] = none
trigger_for id (t ∷ triggers) = elim (trigger_for id triggers) [
  | some later ↦ some later
  | none ↦ if t.id == id then some t else none
]

module _ {V : Type 0} (metrics : Metrics V) where
  -- `_ROLLBACK_OPERATORS[operator](observed, threshold)`
  abbrev pub compares : RollbackOperator → V → V → Bool
  compares lt observed threshold = metrics.less observed threshold
  compares lte observed threshold = metrics.less_or_equal observed threshold
  compares gt observed threshold = metrics.less threshold observed
  compares gte observed threshold = metrics.less_or_equal threshold observed

  -- `rollback_triggered`
  unfoldable pub rollback_triggered :
      RollbackTrigger V → V → ℕ → Option ℕ → Result PromotionError Bool
  rollback_triggered trigger value samples window = do
    trigger' ← validated_trigger metrics trigger
    refuse (not (metrics.is_finite value)) not_finite
    refuse (not (leb 1 samples)) bad_samples
    refuse (not (leb 1 (window_or window trigger'))) bad_window
    refuse (not (window_or window trigger' == trigger'.window_seconds)) wrong_window
    ok (
        if ltb samples trigger'.min_samples
        then false
        else compares trigger'.operator value trigger'.threshold)

  -- `RollbackEvent(...)`
  unfoldable pub validated_event :
      {T : Type 0} → (T → Bool) → RollbackEvent V T → Result PromotionError (RollbackEvent V T)
  validated_event is_aware event = do
    refuse (not (metrics.is_finite event.observed_value)) not_finite
    refuse (not (leb 1 event.observed_samples)) bad_samples
    refuse (not (within 1 31536000 event.observed_window_seconds)) bad_window
    refuse (not (is_aware event.occurred_at)) naive_time
    refuse (event.from_variant.id == event.to_variant.id) same_variants
    refuse (event.from_variant.sha256 == event.to_variant.sha256) same_variants
    ok event

module _ {S V T : Type 0} ⦃e : Eq S⦄ (scores : Scores S) (digests : Digests S) (metrics : Metrics V)
    (seals : Seals S V) (is_aware : T → Bool) (is_id : String → Bool) where
  abbrev pub built_event :
      String
      → PromotionReceipt S V
      → RollbackTrigger V
      → String
      → V
      → ℕ
      → String
      → T
      → Option ℕ
      → RollbackEvent V T
  built_event event_id receipt trigger trigger_id value samples actor occurred_at window = record {
    id = event_id;
    promotion_receipt_sha256 = seals.receipt receipt;
    from_variant = receipt.active_variant;
    to_variant = receipt.previous_variant;
    trigger_id = trigger_id;
    observed_value = value;
    observed_samples = samples;
    observed_window_seconds = window_or window trigger;
    actor = actor;
    occurred_at = occurred_at;
  }

  -- `record_rollback`
  unfoldable pub record_rollback :
      String
      → PromotionReceipt S V
      → String
      → V
      → ℕ
      → String
      → T
      → Option ℕ
      → Result PromotionError (RollbackEvent V T)
  record_rollback event_id receipt trigger_id value samples actor occurred_at window = do
    refuse (not (is_id event_id && is_id actor)) bad_identifier
    receipt' ← validated_receipt scores digests metrics seals receipt
    elim (trigger_for trigger_id receipt'.rollback.triggers) [
      | none ↦ err unknown_trigger
      | some trigger ↦
          rollback_triggered metrics trigger value samples (some (window_or window trigger))
          >>= (λ fires. refuse (not fires) not_triggered)
          >> validated_event metrics is_aware (
              built_event event_id receipt' trigger trigger_id value samples actor occurred_at
                window)
    ]
