-- ===== src/Promotion/Gate.antt =====
-- The exact test and the gate rules: `_exact_one_sided_mcnemar_tail` of
-- src/e2h/promotion_lifecycle.py and `_promotion_checks` of src/e2h/promotion_decision_ops.py.
pub mod McNemar
use e2h.Prelude.{
  ℕ, zero, suc, ◌+◌, ◌*◌, ◌-◌, ◌^◌, Bool, true, false, not, ◌&&◌, ◌||◌, String, Option, none, some,
  List, [], ◌∷◌, ◌++◌, map, any, ◌==◌, Eq, contains, leb, ltb, eqb, if◌then◌else◌,
}
use e2h.Result.{Result, ok, err, refuse, ◌>>=◌, ◌>>◌}
use e2h.Promotion.Evidence.{
  PromotionEvidenceRole, role_eq, PromotionError, missing_role, unexpected_role, wrong_baseline,
  wrong_candidate, Fraction, Scores, PairedEvaluationReport, PromotionGateRule, PromotionGatePolicy,
  PromotionProposal, GateReason, total_below, not_better, score_below, improvement_below,
  discordant_below, p_value_above, PromotionCheck, same_variant, is_empty, validated_check,
}

-- `math.comb(n, k)`
unfoldable pub comb : ℕ → ℕ → ℕ
comb n zero = 1
comb zero (suc k) = 0
comb (suc n) (suc k) = comb n k + comb n (suc k)

-- `sum(math.comb(n, value) for value in range(start, start + count))`
unfoldable pub sum_comb : ℕ → ℕ → ℕ → ℕ
unfolding comb
sum_comb n start zero = 0
sum_comb n start (suc count) = comb n start + sum_comb n (suc start) count

-- `_exact_one_sided_mcnemar_tail`; both counts are natural numbers.
unfoldable pub exact_one_sided_mcnemar_tail : ℕ → ℕ → Fraction
unfolding sum_comb
exact_one_sided_mcnemar_tail candidate_only baseline_only =
    let discordant = candidate_only + baseline_only in
    if eqb discordant 0 || leb candidate_only baseline_only
    then record { numerator = 1; denominator = 1 }
    else record {
      numerator = sum_comb discordant candidate_only (suc discordant - candidate_only);
      denominator = 2 ^ discordant;
    }

-- `a < b` of two fractions
abbrev pub below : Fraction → Fraction → Bool
below a b = ltb (a.numerator * b.denominator) (b.numerator * a.denominator)

-- `Fraction(a - b, total) < t`, where the difference may be negative.
abbrev pub difference_below : ℕ → ℕ → ℕ → Fraction → Bool
difference_below a b total t = ltb (a * t.denominator) (t.numerator * total + b * t.denominator)

-- `{report.role: report for report in evidence}`, looked up: a later report wins.
unfoldable pub report_for :
    {S : Type 0}
    → PromotionEvidenceRole
    → List (PairedEvaluationReport S)
    → Option (PairedEvaluationReport S)
report_for role [] = none
report_for role (r ∷ reports) = elim (report_for role reports) [
  | some later ↦ some later
  | none ↦ if r.role == role then some r else none
]

abbrev when {ℓ} : {A : Type ℓ} → Bool → A → List A
when test a = if test then a ∷ [] else []

module _ {S : Type 0} ⦃e : Eq S⦄ (scores : Scores S)
    (report_sha256 : PairedEvaluationReport S → String) where
  -- `p_value_fraction`
  abbrev pub p_value_of : PairedEvaluationReport S → Fraction
  p_value_of report =
      exact_one_sided_mcnemar_tail report.counts.candidate_only_correct
        report.counts.baseline_only_correct

  -- The list `reasons`
  unfoldable pub reasons_of : PromotionGateRule S → PairedEvaluationReport S → List GateReason
  unfolding exact_one_sided_mcnemar_tail
  reasons_of rule report =
      let c = report.counts.candidate_only_correct in
      let b = report.counts.baseline_only_correct in
      let score : Fraction = record {
        numerator = report.counts.both_correct + c;
        denominator = report.total;
      } in
      when (ltb report.total rule.min_total) (total_below report.total rule.min_total)
      ++ (when (leb c b) not_better
          ++ (when (below score (scores.as_fraction rule.min_candidate_score)) (
                score_below (scores.fixed report.candidate_score)
                  (scores.fixed rule.min_candidate_score))
              ++ (when
                    (difference_below c b report.total
                      (scores.as_fraction rule.min_absolute_improvement))
                    (improvement_below (scores.fixed (scores.difference_quotient c b report.total))
                      (scores.fixed rule.min_absolute_improvement))
                  ++ (when (ltb (c + b) rule.min_discordant_pairs)
                        (discordant_below (c + b) rule.min_discordant_pairs)
                      ++ when
                          (below (scores.as_fraction rule.max_one_sided_p_value)
                            (p_value_of report))
                          (p_value_above
                            (scores.general (
                              scores.quotient (p_value_of report).numerator
                                (p_value_of report).denominator))
                            (scores.general rule.max_one_sided_p_value))))))

  abbrev pub check_of : PromotionGateRule S → PairedEvaluationReport S → PromotionCheck S
  check_of rule report = record {
    role = rule.role;
    evidence_id = report.evidence_id;
    evidence_sha256 = report_sha256 report;
    passed = is_empty (reasons_of rule report);
    total = report.total;
    baseline_score = report.baseline_score;
    candidate_score = report.candidate_score;
    absolute_improvement =
        scores.difference_quotient report.counts.candidate_only_correct
          report.counts.baseline_only_correct report.total;
    discordant_pairs = report.counts.candidate_only_correct + report.counts.baseline_only_correct;
    candidate_only_correct = report.counts.candidate_only_correct;
    baseline_only_correct = report.counts.baseline_only_correct;
    one_sided_p_value =
        scores.quotient (p_value_of report).numerator (p_value_of report).denominator;
    reasons = reasons_of rule report;
  }

  -- One iteration of the loop over the rules; a missing role is refused before.
  unfoldable pub check_rule :
      PromotionProposal S → PromotionGateRule S → Result PromotionError (PromotionCheck S)
  check_rule proposal rule = elim (report_for rule.role proposal.evidence) [
    | none ↦ err missing_role
    | some report ↦
        refuse (not (same_variant report.baseline proposal.baseline)) wrong_baseline
        >> refuse (not (same_variant report.candidate proposal.candidate)) wrong_candidate
        >> validated_check scores (check_of rule report)
  ]

  unfoldable pub check_rules :
      PromotionProposal S
      → List (PromotionGateRule S)
      → Result PromotionError (List (PromotionCheck S))
  check_rules proposal [] = ok []
  check_rules proposal (rule ∷ rules) = do
    c ← check_rule proposal rule
    checks ← check_rules proposal rules
    ok (c ∷ checks)

  -- `_promotion_checks`
  unfoldable pub promotion_checks :
      PromotionGatePolicy S → PromotionProposal S → Result PromotionError (List (PromotionCheck S))
  promotion_checks policy proposal = do
    let policy_roles = map (λ rule. rule.role) policy.rules
    let evidence_roles = map (λ report. report.role) proposal.evidence
    refuse (any (λ role. not (contains role evidence_roles)) policy_roles) missing_role
    refuse (any (λ role. not (contains role policy_roles)) evidence_roles) unexpected_role
    check_rules proposal policy.rules
