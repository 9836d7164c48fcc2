-- ===== src/Promotion/Rollback/Triggers.antt =====
-- Triggers of src/e2h/promotion_lifecycle.py: what is found under an id, and when one fires.
use e2h.Prelude.{
  ℕ, ◌≡◌, ◌≤◌, ◌∙◌, ap, sym, subst, Bool, true, false, not, String, some, List, [], ◌∷◌, ◌==◌,
  text_eq, number_eq, leb, ltb, inl, inr, Option-cases, arith, if◌then◌else◌,
}
use e2h.Result.{Result, ok, refuse, collect, Result-cases, ◌>>◌}
use e2h.Promotion.Evidence.{PromotionError, VariantRef}
use e2h.Promotion.Receipt.{
  RollbackTrigger, RollbackPlan, Metrics, validated_trigger, validated_plan,
}
use e2h.Promotion.Rollback.{
  RollbackEvent, trigger_for, compares, rollback_triggered, validated_event,
}

pub trigger_for-id :
    {V : Type 0} (id : String) (triggers : List (RollbackTrigger V)) (t : RollbackTrigger V)
    → trigger_for id triggers ≡ some t
    → t.id ≡ id
unfolding trigger_for
trigger_for-id id [] t h = absurd (ground (arith, h))
trigger_for-id id (x ∷ triggers) t h = elim (Option-cases (trigger_for id triggers)) [
  | inr (later, found) ↦ trigger_for-id id triggers t (ground (arith, h, found))
  | inl none_later ↦ ground (arith, h, none_later, text_eq.equal_iff x.id id)
]

module _ {V : Type 0} (metrics : Metrics V) where
  validated_trigger-same : (t t' : RollbackTrigger V) → validated_trigger metrics t ≡ ok t' → t ≡ t'
  unfolding validated_trigger
  validated_trigger-same t t' h = ground (arith, h)

  trigger-ranges :
      (t : RollbackTrigger V)
      → validated_trigger metrics t ≡ ok t
      → (1 ≤ t.min_samples) × (1 ≤ t.window_seconds)
  unfolding validated_trigger
  trigger-ranges t h = (ground (arith, h), ground (arith, h))

  pub trigger_for-valid :
      (id : String) (triggers valid : List (RollbackTrigger V)) (t : RollbackTrigger V)
      → collect (validated_trigger metrics) triggers ≡ ok valid
      → trigger_for id triggers ≡ some t
      → validated_trigger metrics t ≡ ok t
  unfolding trigger_for
  trigger_for-valid id [] valid t v h = absurd (ground (arith, h))
  trigger_for-valid id (x ∷ triggers) valid t v h =
      elim (Result-cases (validated_trigger metrics x)) [
        | inr (problem, refused) ↦ absurd (ground (arith, v, refused))
        | inl (x', fits) ↦ elim (Result-cases (collect (validated_trigger metrics) triggers)) [
          | inr (problem, refused) ↦ absurd (ground (arith, v, fits, refused))
          | inl (others, fit) ↦ elim (Option-cases (trigger_for id triggers)) [
            | inr (later, found) ↦
                trigger_for-valid id triggers others t fit (ground (arith, h, found))
            | inl none_later ↦
                let same : x ≡ t = ground (arith, h, none_later) in
                subst (λ y. validated_trigger metrics y ≡ ok y) same
                  (fits ∙ ap ok (sym (validated_trigger-same x x' fits)))
          ]
        ]
      ]

  -- `rollback_triggered` on a trigger that is validated already
  abbrev fires_after : RollbackTrigger V → V → ℕ → ℕ → Result PromotionError Bool
  fires_after t value samples window = do
    refuse (not (metrics.is_finite value)) PromotionError.not_finite
    refuse (not (leb 1 samples)) PromotionError.bad_samples
    refuse (not (leb 1 window)) PromotionError.bad_window
    refuse (not (window == t.window_seconds)) PromotionError.wrong_window
    ok (if ltb samples t.min_samples then false else compares metrics t.operator value t.threshold)

  triggered-branches :
      (t : RollbackTrigger V) (value : V) (samples : ℕ) (window : ℕ)
      → fires_after t value samples window ≡ ok true
      → (t.min_samples ≤ samples)
        × (window ≡ t.window_seconds)
        × (compares metrics t.operator value t.threshold ≡ true)
  triggered-branches t value samples window h = (
    ground (arith, h),
    ground (arith, h, number_eq.equal_iff window t.window_seconds),
    ground (arith, h),
  )

  pub triggered-fires :
      (t : RollbackTrigger V) (value : V) (samples : ℕ) (window : ℕ)
      → rollback_triggered metrics t value samples (some window) ≡ ok true
      → (t.min_samples ≤ samples)
        × (window ≡ t.window_seconds)
        × (compares metrics t.operator value t.threshold ≡ true)
  unfolding rollback_triggered
  triggered-fires t value samples window h = elim (Result-cases (validated_trigger metrics t)) [
    | inr (problem, refused) ↦ absurd (ground (arith, h, refused))
    | inl (t', v) ↦
        let same = validated_trigger-same t t' v in
        let h' = triggered-branches t' value samples window (ground (arith, h, v)) in
        subst
          (λ y.
            (y.min_samples ≤ samples)
            × (window ≡ y.window_seconds)
            × (compares metrics y.operator value y.threshold ≡ true))
          (sym same) h'
  ]

  pub rollback_triggered-true :
      (t : RollbackTrigger V) (value : V) (samples window : ℕ)
      → validated_trigger metrics t ≡ ok t
      → metrics.is_finite value ≡ true
      → t.min_samples ≤ samples
      → window ≡ t.window_seconds
      → compares metrics t.operator value t.threshold ≡ true
      → rollback_triggered metrics t value samples (some window) ≡ ok true
  unfolding rollback_triggered
  rollback_triggered-true t value samples window v finite enough in_window holds =
      let (least, positive) = trigger-ranges t v in
      rw v (
        ground (
          arith,
          finite,
          enough,
          in_window,
          holds,
          least,
          positive,
          number_eq.equal_iff window t.window_seconds,
        ))

  pub event-accepted :
      {T : Type 0} (is_aware : T → Bool) (t : RollbackTrigger V) (event : RollbackEvent V T)
      → validated_trigger metrics t ≡ ok t
      → metrics.is_finite event.observed_value ≡ true
      → t.min_samples ≤ event.observed_samples
      → event.observed_window_seconds ≡ t.window_seconds
      → is_aware event.occurred_at ≡ true
      → (event.from_variant.id == event.to_variant.id) ≡ false
      → (event.from_variant.sha256 == event.to_variant.sha256) ≡ false
      → validated_event metrics is_aware event ≡ ok event
  unfolding validated_event validated_trigger
  event-accepted is_aware t event v finite enough in_window aware ids digests =
      ground (arith, v, finite, enough, in_window, aware, ids, digests)

  pub plan-differs :
      (plan : RollbackPlan V) (from to : VariantRef)
      → validated_plan metrics plan ≡ ok plan
      → plan.active_variant ≡ from
      → plan.target_variant ≡ to
      → ((from.id == to.id) ≡ false) × ((from.sha256 == to.sha256) ≡ false)
  unfolding validated_plan
  plan-differs plan from to v active target =
      elim (Result-cases (collect (validated_trigger metrics) plan.triggers)) [
        | inr (problem, refused) ↦ absurd (ground (arith, v, refused))
        | inl (triggers, fit) ↦ (
          ap (λ k. k.id == to.id) (sym active)
              ∙ ap (λ k. plan.active_variant.id == k.id) (sym target)
              ∙ ground (arith, v, fit),
          ap (λ k. k.sha256 == to.sha256) (sym active)
              ∙ ap (λ k. plan.active_variant.sha256 == k.sha256) (sym target)
              ∙ ground (arith, v, fit),
        )
      ]
