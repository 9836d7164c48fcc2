-- ===== src/Promotion/Decision/Checks.antt =====
-- The checks that the rules of a policy give on valid evidence: they are made and valid.
use e2h.Prelude.{
  ◌+◌, ◌≤◌, ◌≡◌, ◌∙◌, ap, refl, subst, true, false, not, String, some, List, [], ◌∷◌, map, any,
  text_eq, number_eq, Eq, contains, Option-cases, inl, inr, arith,
}
use e2h.Result.{ok, collect, Result-cases}
use e2h.Promotion.Evidence.{
  PromotionEvidenceRole, role_eq, Scores, PairedEvaluationReport, PromotionGateRule,
  PromotionProposal, PromotionCheck, VariantRef, same_variant, validated_report, validated_reports,
  validated_check,
}
use e2h.Promotion.Gate.{report_for, check_of, check_rule, check_rules, p_value_of}
use e2h.Promotion.Gate.McNemar.{mcnemar_tail-le}
use e2h.Promotion.Decision.Reports.{report_for-some}

module _ {S : Type 0} ⦃e : Eq S⦄ (scores : Scores S) (baseline candidate : VariantRef) where
  -- A valid report about these two variants, as far as a check reads it.
  pub record Fits (r : PairedEvaluationReport S) : Type 0 where
    pub about_baseline : same_variant r.baseline baseline ≡ true
    pub about_candidate : same_variant r.candidate candidate ≡ true
    pub total_fits : 1 ≤ r.total
    pub baseline_score_fits : scores.in_unit r.baseline_score ≡ true
    pub candidate_score_fits : scores.in_unit r.candidate_score ≡ true
    pub candidate_only_fits : r.counts.candidate_only_correct ≤ r.total
    pub baseline_only_fits : r.counts.baseline_only_correct ≤ r.total

  abbrev pub AllFit : List (PairedEvaluationReport S) → Type 0
  AllFit [] = Unit
  AllFit (r ∷ reports) = Fits r × AllFit reports

  report-Fits :
      (r r' : PairedEvaluationReport S)
      → validated_report scores r ≡ ok r'
      → same_variant r.baseline baseline ≡ true
      → same_variant r.candidate candidate ≡ true
      → Fits r
  unfolding validated_report
  report-Fits r r' h b c =
      let t = r.counts in
      let sum : t.both_correct + t.baseline_only_correct + t.candidate_only_correct
            + t.neither_correct
          ≡ r.total =
        ground (
          arith,
          h,
          number_eq.equal_iff
              (t.both_correct + t.baseline_only_correct + t.candidate_only_correct
                + t.neither_correct)
              r.total,
        ) in
      record {
        about_baseline = b;
        about_candidate = c;
        total_fits = ground (arith, h);
        baseline_score_fits = ground (arith, h);
        candidate_score_fits = ground (arith, h);
        candidate_only_fits = omega (arith, sum);
        baseline_only_fits = omega (arith, sum);
      }

  pub reports-AllFit :
      (reports : List (PairedEvaluationReport S))
      → validated_reports scores reports ≡ ok tt
      → any (λ r. not (same_variant r.baseline baseline)) reports ≡ false
      → any (λ r. not (same_variant r.candidate candidate)) reports ≡ false
      → AllFit reports
  unfolding validated_reports
  reports-AllFit [] h b c = tt
  reports-AllFit (r ∷ reports) h b c = elim (Result-cases (validated_report scores r)) [
    | inr (problem, refused) ↦ absurd (ground (arith, h, refused))
    | inl (r', valid) ↦ (
      report-Fits r r' valid (ground (arith, b)) (ground (arith, c)),
      reports-AllFit reports (ground (arith, h, valid)) (ground (arith, b)) (ground (arith, c)),
    )
  ]

  report_for-Fits :
      (role : PromotionEvidenceRole) (reports : List (PairedEvaluationReport S))
      (r : PairedEvaluationReport S)
      → AllFit reports
      → report_for role reports ≡ some r
      → Fits r
  unfolding report_for
  report_for-Fits role [] r fit h = absurd (ground (arith, h))
  report_for-Fits role (x ∷ reports) r fit h = elim (Option-cases (report_for role reports)) [
    | inr (later, found) ↦ report_for-Fits role reports r fit.1 (ground (arith, h, found))
    | inl none_later ↦ let same : x ≡ r = ground (arith, h, none_later) in subst Fits same fit.0
  ]

  module _ (report_sha256 : PairedEvaluationReport S → String) where
    check_of-valid :
        (rule : PromotionGateRule S) (r : PairedEvaluationReport S)
        → Fits r
        → validated_check scores (check_of scores report_sha256 rule r)
          ≡ ok (check_of scores report_sha256 rule r)
    unfolding validated_check
    check_of-valid rule r f =
        let c = r.counts.candidate_only_correct in
        let b = r.counts.baseline_only_correct in
        let (small, positive) = mcnemar_tail-le c b in
        let p : scores.in_unit (
              scores.quotient (p_value_of scores report_sha256 r).numerator
                (p_value_of scores report_sha256 r).denominator)
            ≡ true =
          scores.in_unit-quotient _ _ small positive in
        let i =
          scores.in_signed_unit-difference c b r.total f.candidate_only_fits f.baseline_only_fits
            f.total_fits in
        ground (arith, p, i, f.total_fits, f.baseline_score_fits, f.candidate_score_fits)

    check_rule-ok :
        (proposal : PromotionProposal S) (rule : PromotionGateRule S) (r : PairedEvaluationReport S)
        → report_for rule.role proposal.evidence ≡ some r
        → same_variant r.baseline proposal.baseline ≡ true
        → same_variant r.candidate proposal.candidate ≡ true
        → validated_check scores (check_of scores report_sha256 rule r)
          ≡ ok (check_of scores report_sha256 rule r)
        → check_rule scores report_sha256 proposal rule ≡ ok (check_of scores report_sha256 rule r)
    unfolding check_rule
    check_rule-ok proposal rule r found b c valid =
        rw (found, check_rule) (ground (arith, b, c, valid))

    -- The checks are those of the rules, each on the report of its role.
    unfoldable pub AreChecks :
        List (PairedEvaluationReport S)
        → List (PromotionGateRule S)
        → List (PromotionCheck S)
        → Type 0
    AreChecks reports [] [] = Unit
    AreChecks reports [] (c ∷ checks) = ⊥
    AreChecks reports (rule ∷ rules) [] = ⊥
    AreChecks reports (rule ∷ rules) (c ∷ checks) =
        (r : PairedEvaluationReport S) × (report_for rule.role reports ≡ some r)
        × (c ≡ check_of scores report_sha256 rule r)
        × AreChecks reports rules checks

    pub check_rules-AreChecks :
        (proposal : PromotionProposal S) (rules : List (PromotionGateRule S))
        → proposal.baseline ≡ baseline
        → proposal.candidate ≡ candidate
        → AllFit proposal.evidence
        → any
            (λ role. not (contains role (map (λ r. r.role) proposal.evidence)))
            (map (λ rule. rule.role) rules)
          ≡ false
        → (checks : List (PromotionCheck S)) × (check_rules scores report_sha256 proposal rules
            ≡ ok checks)
          × (collect (validated_check scores) checks ≡ ok checks)
          × AreChecks proposal.evidence rules checks
    unfolding check_rules AreChecks
    check_rules-AreChecks proposal [] b c fit roles = ([], refl, refl, tt)
    check_rules-AreChecks proposal (rule ∷ rules) b c fit roles =
        let (r, found) = report_for-some rule.role proposal.evidence (ground (arith, roles)) in
        let fits = report_for-Fits rule.role proposal.evidence r fit found in
        let valid = check_of-valid rule r fits in
        let (checks, made, accepted, are) =
          check_rules-AreChecks proposal rules b c fit (ground (arith, roles)) in
        let about_b : same_variant r.baseline proposal.baseline ≡ true =
          ap (same_variant r.baseline) b ∙ fits.about_baseline in
        let about_c : same_variant r.candidate proposal.candidate ≡ true =
          ap (same_variant r.candidate) c ∙ fits.about_candidate in
        (
          check_of scores report_sha256 rule r ∷ checks,
          rw (check_rule-ok proposal rule r found about_b about_c valid, made) refl,
          rw (valid, accepted) refl,
          (r, found, refl, are),
        )
