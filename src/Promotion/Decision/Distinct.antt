-- ===== src/Promotion/Decision/Distinct.antt =====
-- The checks of a policy's rules are as many as the rules, have their roles and are distinct.
use e2h.Prelude.{
  suc, ◌≡◌, ◌∙◌, ap, sym, refl, true, String, some, List, [], ◌∷◌, map, ◌==◌, text_eq, number_eq,
  Eq, contains, all_unique, all_unique-cons, length, Bool-cases, inl, inr, arith,
}
use e2h.Promotion.Evidence.{
  PromotionEvidenceRole, role_eq, Scores, PairedEvaluationReport, PromotionGateRule, PromotionCheck,
  VariantRef,
}
use e2h.Promotion.Gate.{report_for}
use e2h.Promotion.Decision.Checks.{AreChecks}
use e2h.Promotion.Decision.Reports.{report_for-role, report_for-same}

module _ {S : Type 0} ⦃e : Eq S⦄ (scores : Scores S) (baseline candidate : VariantRef) where
  module _ (report_sha256 : PairedEvaluationReport S → String) where
    pub AreChecks-roles :
        (reports : List (PairedEvaluationReport S)) (rules : List (PromotionGateRule S))
        (checks : List (PromotionCheck S))
        → AreChecks scores baseline candidate report_sha256 reports rules checks
        → map (λ c. c.role) checks ≡ map (λ rule. rule.role) rules
    unfolding AreChecks
    AreChecks-roles reports [] [] h = refl
    AreChecks-roles reports [] (c ∷ checks) h = absurd h
    AreChecks-roles reports (rule ∷ rules) [] h = absurd h
    AreChecks-roles reports (rule ∷ rules) (c ∷ checks) (r, found, same, rest) =
        ap (λ k. k.role ∷ map (λ j. j.role) checks) same
        ∙ ap (λ l. rule.role ∷ l) (AreChecks-roles reports rules checks rest)

    pub AreChecks-length :
        (reports : List (PairedEvaluationReport S)) (rules : List (PromotionGateRule S))
        (checks : List (PromotionCheck S))
        → AreChecks scores baseline candidate report_sha256 reports rules checks
        → length checks ≡ length rules
    unfolding AreChecks
    AreChecks-length reports [] [] h = refl
    AreChecks-length reports [] (c ∷ checks) h = absurd h
    AreChecks-length reports (rule ∷ rules) [] h = absurd h
    AreChecks-length reports (rule ∷ rules) (c ∷ checks) (r, found, same, rest) =
        ap suc (AreChecks-length reports rules checks rest)

    -- A check with the evidence of a report stands for a rule of the report's role.
    evidence-role :
        (reports : List (PairedEvaluationReport S)) (rules : List (PromotionGateRule S))
        (checks : List (PromotionCheck S)) (role : PromotionEvidenceRole)
        (q : PairedEvaluationReport S)
        → all_unique (map (λ x. x.evidence_id) reports) ≡ true
        → report_for role reports ≡ some q
        → AreChecks scores baseline candidate report_sha256 reports rules checks
        → contains q.evidence_id (map (λ c. c.evidence_id) checks) ≡ true
        → contains role (map (λ rule. rule.role) rules) ≡ true
    unfolding AreChecks
    evidence-role reports [] [] role q unique at h found = absurd (ground (arith, found))
    evidence-role reports [] (c ∷ checks) role q unique at h found = absurd h
    evidence-role reports (rule ∷ rules) [] role q unique at h found = absurd h
    evidence-role reports (rule ∷ rules) (c ∷ checks) role q unique at (r, there, same, rest)
          found =
        elim (Bool-cases (c.evidence_id == q.evidence_id)) [
          | inr other ↦ ground (
            arith,
            evidence-role reports rules checks role q unique at rest (ground (arith, found, other)),
          )
          | inl here ↦
              let id : r.evidence_id ≡ q.evidence_id =
                sym (ap (λ k. k.evidence_id) same)
                ∙ ground (arith, here, text_eq.equal_iff c.evidence_id q.evidence_id) in
              let roles : rule.role ≡ role =
                sym (report_for-role rule.role reports r there)
                ∙ report_for-same rule.role role reports r q unique there at id
                ∙ report_for-role role reports q at in
              ground (arith, role_eq.equal_iff rule.role role, roles)
        ]

    pub AreChecks-unique :
        (reports : List (PairedEvaluationReport S)) (rules : List (PromotionGateRule S))
        (checks : List (PromotionCheck S))
        → all_unique (map (λ x. x.evidence_id) reports) ≡ true
        → all_unique (map (λ rule. rule.role) rules) ≡ true
        → AreChecks scores baseline candidate report_sha256 reports rules checks
        → all_unique (map (λ c. c.evidence_id) checks) ≡ true
    unfolding AreChecks
    AreChecks-unique reports [] [] unique roles h = refl
    AreChecks-unique reports [] (c ∷ checks) unique roles h = absurd h
    AreChecks-unique reports (rule ∷ rules) [] unique roles h = absurd h
    AreChecks-unique reports (rule ∷ rules) (c ∷ checks) unique roles (r, there, same, rest) =
        let fresh = all_unique-cons rule.role (map (λ k. k.role) rules) in
        let id : c.evidence_id ≡ r.evidence_id = ap (λ k. k.evidence_id) same in
        ground (
          arith,
          fresh,
          roles,
          id,
          all_unique-cons c.evidence_id (map (λ k. k.evidence_id) checks),
          evidence-role reports rules checks rule.role r unique there rest,
          AreChecks-unique reports rules checks unique (ground (arith, roles, fresh)) rest,
        )
