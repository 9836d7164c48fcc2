-- ===== src/Promotion/Rollback/Fires.antt =====
-- When `record_rollback` records an event, and which way the event goes.
use e2h.Prelude.{
  ℕ, ◌≡◌, ◌≤◌, ◌∙◌, ap, sym, Bool, true, String, Option, some, text_eq, number_eq, Eq, inl, inr,
  Option-cases, arith,
}
use e2h.Result.{ok, collect, Result-cases}
use e2h.Promotion.Evidence.{Scores}
use e2h.Promotion.Decision.{Digests}
use e2h.Promotion.Receipt.{
  RollbackTrigger, PromotionReceipt, Metrics, Seals, validated_trigger, validated_plan,
  validated_receipt,
}
use e2h.Promotion.Receipt.Bound.{receipt-Bound}
use e2h.Promotion.Rollback.{
  RollbackEvent, window_or, trigger_for, compares, rollback_triggered, validated_event, built_event,
  record_rollback,
}
use e2h.Promotion.Rollback.Triggers.{
  trigger_for-id, trigger_for-valid, triggered-fires, rollback_triggered-true, event-accepted,
  plan-differs,
}

module _ {S V T : Type 0} ⦃e : Eq S⦄ (scores : Scores S) (digests : Digests S) (metrics : Metrics V)
    (seals : Seals S V) (is_aware : T → Bool) (is_id : String → Bool) where
  -- When `record_rollback` gives an event, the receipt's plan declares a trigger of the given id,
  -- the observation has the trigger's window and at least its samples, and its value compares with
  -- the threshold as the trigger says; the event goes from the candidate of the receipt's decision
  -- back to its baseline.
  pub record_rollback-fires :
      (event_id : String) (r : PromotionReceipt S V) (trigger_id : String) (value : V) (samples : ℕ)
      (actor : String) (occurred_at : T) (window : Option ℕ) (event : RollbackEvent V T)
      → record_rollback scores digests metrics seals is_aware is_id event_id r trigger_id value
          samples actor occurred_at window
        ≡ ok event
      → (t : RollbackTrigger V) × (trigger_for trigger_id r.rollback.triggers ≡ some t)
        × (t.id ≡ trigger_id)
        × (t.min_samples ≤ samples)
        × (window_or window t ≡ t.window_seconds)
        × (compares metrics t.operator value t.threshold ≡ true)
        × (event.from_variant ≡ r.decision.candidate)
        × (event.to_variant ≡ r.decision.baseline)
  unfolding record_rollback validated_event
  record_rollback-fires event_id r trigger_id value samples actor occurred_at window event h =
      elim (Result-cases (validated_receipt scores digests metrics seals r)) [
        | inr (problem, refused) ↦ absurd (ground (arith, h, refused))
        | inl (r', v) ↦ elim (Option-cases (trigger_for trigger_id r'.rollback.triggers)) [
          | inl none_found ↦ absurd (ground (arith, h, v, none_found))
          | inr (t, found) ↦
              elim (Result-cases
                (rollback_triggered metrics t value samples (some (window_or window t)))) [
                  | inr (problem, refused) ↦ absurd (ground (arith, h, v, found, refused))
                  | inl (fires, fired) ↦
                      let (same, bound) = receipt-Bound scores digests metrics seals r r' v in
                      let fired' : rollback_triggered metrics t value samples
                            (some (window_or window t))
                          ≡ ok true =
                        fired ∙ ground (arith, h, v, found, fired) in
                      let (enough, in_window, holds) =
                        triggered-fires metrics t value samples (window_or window t) fired' in
                      let from : event.from_variant ≡ r'.active_variant =
                        ground (arith, h, v, found, fired') in
                      let to : event.to_variant ≡ r'.previous_variant =
                        ground (arith, h, v, found, fired') in
                      (
                        t,
                        ap (λ k. trigger_for trigger_id k.rollback.triggers) same ∙ found,
                        trigger_for-id trigger_id r'.rollback.triggers t found,
                        enough,
                        in_window,
                        holds,
                        from ∙ ap (λ k. k.active_variant) (sym same) ∙ bound.from_candidate,
                        to ∙ ap (λ k. k.previous_variant) (sym same) ∙ bound.to_baseline,
                      )
                ]
        ]
      ]

  -- For an accepted receipt, `record_rollback` records the event of an observation that a declared
  -- trigger fires on, given identifiers and a time that are well formed.
  pub record_rollback-accepted :
      (event_id : String) (r : PromotionReceipt S V) (trigger_id : String) (value : V) (samples : ℕ)
      (actor : String) (occurred_at : T) (window : Option ℕ) (t : RollbackTrigger V)
      → validated_receipt scores digests metrics seals r ≡ ok r
      → is_id event_id ≡ true
      → is_id actor ≡ true
      → is_aware occurred_at ≡ true
      → trigger_for trigger_id r.rollback.triggers ≡ some t
      → metrics.is_finite value ≡ true
      → t.min_samples ≤ samples
      → window_or window t ≡ t.window_seconds
      → compares metrics t.operator value t.threshold ≡ true
      → record_rollback scores digests metrics seals is_aware is_id event_id r trigger_id value
          samples actor occurred_at window
        ≡ ok (
            built_event scores digests metrics seals is_aware is_id event_id r t trigger_id value
              samples actor occurred_at window)
  unfolding record_rollback validated_plan
  record_rollback-accepted event_id r trigger_id value samples actor occurred_at window t valid
        event_fits actor_fits aware found finite enough in_window holds =
      let bound = (receipt-Bound scores digests metrics seals r r valid).1 in
      elim (Result-cases (collect (validated_trigger metrics) r.rollback.triggers)) [
        | inr (problem, refused) ↦ absurd (ground (arith, bound.plan_holds, refused))
        | inl (triggers, fit) ↦
            let trigger_fits =
              trigger_for-valid metrics trigger_id r.rollback.triggers triggers t fit found in
            let (ids, shas) =
              plan-differs metrics r.rollback r.active_variant r.previous_variant bound.plan_holds
                bound.plan_from bound.plan_to in
            let fires =
              rollback_triggered-true metrics t value samples (window_or window t) trigger_fits
                finite enough in_window holds in
            let recorded =
              event-accepted metrics is_aware t
                (built_event scores digests metrics seals is_aware is_id event_id r t trigger_id
                  value samples actor occurred_at window)
                trigger_fits finite enough in_window aware ids shas in
            ground (arith, event_fits, actor_fits, valid, found, fires, recorded)
      ]
