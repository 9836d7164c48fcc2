-- ===== src/Promotion/Decision/Reports.antt =====
-- What `report_for` finds among the reports of a proposal (src/e2h/promotion_decision_ops.py).
use e2h.Prelude.{
  ◌≡◌, refl, true, some, List, [], ◌∷◌, map, ◌==◌, text_eq, number_eq, contains, all_unique,
  all_unique-cons, Bool-cases, Option-cases, inl, inr, arith,
}
use e2h.Promotion.Evidence.{PromotionEvidenceRole, role_eq, PairedEvaluationReport}
use e2h.Promotion.Gate.{report_for}

module _ {S : Type 0} where
  pub report_for-role :
      (role : PromotionEvidenceRole) (reports : List (PairedEvaluationReport S))
      (r : PairedEvaluationReport S)
      → report_for role reports ≡ some r
      → r.role ≡ role
  unfolding report_for
  report_for-role role [] r h = absurd (ground (arith, h))
  report_for-role role (x ∷ reports) r h = elim (Option-cases (report_for role reports)) [
    | inr (later, found) ↦ report_for-role role reports r (ground (arith, h, found))
    | inl none_later ↦ ground (arith, h, none_later, role_eq.equal_iff x.role role)
  ]

  pub report_for-some :
      (role : PromotionEvidenceRole) (reports : List (PairedEvaluationReport S))
      → contains role (map (λ r. r.role) reports) ≡ true
      → (r : PairedEvaluationReport S) × (report_for role reports ≡ some r)
  unfolding report_for
  report_for-some role [] h = absurd (ground (arith, h))
  report_for-some role (x ∷ reports) h = elim (Option-cases (report_for role reports)) [
    | inr (later, found) ↦ (later, rw found refl)
    | inl none_later ↦ elim (Bool-cases (x.role == role)) [
      | inl here ↦ (x, rw (none_later, here) refl)
      | inr other ↦
          let (r, found) = report_for-some role reports (ground (arith, h, other)) in
          (r, absurd (ground (arith, found, none_later)))
    ]
  ]

  pub report_for-id :
      (role : PromotionEvidenceRole) (reports : List (PairedEvaluationReport S))
      (r : PairedEvaluationReport S)
      → report_for role reports ≡ some r
      → contains r.evidence_id (map (λ x. x.evidence_id) reports) ≡ true
  unfolding report_for
  report_for-id role [] r h = absurd (ground (arith, h))
  report_for-id role (x ∷ reports) r h = elim (Option-cases (report_for role reports)) [
    | inr (later, found) ↦ ground (arith, report_for-id role reports r (ground (arith, h, found)))
    | inl none_later ↦ ground (arith, h, none_later, text_eq.equal_iff x.evidence_id r.evidence_id)
  ]

  -- Where evidence ids are distinct, two roles with evidence of one id are one role.
  pub report_for-same :
      (a b : PromotionEvidenceRole) (reports : List (PairedEvaluationReport S))
      (r q : PairedEvaluationReport S)
      → all_unique (map (λ x. x.evidence_id) reports) ≡ true
      → report_for a reports ≡ some r
      → report_for b reports ≡ some q
      → r.evidence_id ≡ q.evidence_id
      → r.role ≡ q.role
  unfolding report_for
  report_for-same a b [] r q unique f g same = absurd (ground (arith, f))
  report_for-same a b (x ∷ reports) r q unique f g same =
      let fresh = all_unique-cons x.evidence_id (map (λ y. y.evidence_id) reports) in
      elim (Option-cases (report_for a reports)) [
        | inr (r', found) ↦ elim (Option-cases (report_for b reports)) [
          | inr (q', found') ↦
              report_for-same a b reports r q (ground (arith, unique, fresh))
                (ground (arith, f, found)) (ground (arith, g, found')) same
          | inl none_later ↦
              let id = report_for-id a reports r (ground (arith, f, found)) in
              absurd (ground (arith, g, none_later, id, unique, fresh, same))
        ]
        | inl no_a ↦ elim (Option-cases (report_for b reports)) [
          | inr (q', found') ↦
              let id = report_for-id b reports q (ground (arith, g, found')) in
              absurd (ground (arith, f, no_a, id, unique, fresh, same))
          | inl no_b ↦ ground (arith, f, g, no_a, no_b)
        ]
      ]
