-- ===== src/Promotion/Evidence.antt =====
-- The models of src/e2h/promotion_evidence.py with their validators. A model's texts that only have
-- to match a pattern, and its metadata, are not validated here.
use e2h.Prelude.{
  ℕ, ◌+◌, ◌≤◌, ◌≡◌, Bool, true, false, not, ◌&&◌, String, List, [], ◌∷◌, map, any, all, ◌==◌,
  text_eq, number_eq, Eq, eq_of, all_unique, leb, within, length, if◌then◌else◌,
}
use e2h.Result.{Result, ok, refuse, ◌>>=◌, ◌>>◌}

pub data PromotionEvidenceRole : Type 0 where
  validation sealed_test : PromotionEvidenceRole

unfoldable pub PromotionEvidenceRole-discrete : Discrete PromotionEvidenceRole
PromotionEvidenceRole-discrete = hlevel

instance abbrev pub role_eq : Eq PromotionEvidenceRole
role_eq = eq_of PromotionEvidenceRole-discrete

-- `PromotionError`, and what the validators of the models refuse.
pub data PromotionError : Type 0 where
  different_roles same_variants wrong_dataset wrong_partition : PromotionError
  missing_examples unexpected_examples wrong_outputs no_example : PromotionError
  bad_total bad_counts bad_score repeated_prediction bad_rule : PromotionError
  wrong_baseline wrong_candidate repeated_role repeated_evidence : PromotionError
  different_commitments wrong_length missing_role unexpected_role : PromotionError
  reasons_mismatch wrong_policy wrong_proposal wrong_checks wrong_decision : PromotionError
  repeated_trigger not_promoted wrong_digest wrong_active wrong_target : PromotionError
  not_finite naive_time bad_samples bad_window wrong_window unknown_trigger : PromotionError
  not_triggered bad_identifier : PromotionError

-- `Fraction` of two natural numbers.
pub record Fraction : Type 0 where
  pub numerator : ℕ
  pub denominator : ℕ

-- What the program takes from Python's floats: the nearest one to a quotient, to the quotient of a
-- difference (0.25 for 3, 1 and 8), and the fraction that a threshold's text denotes.
pub record Scores (S : Type 0) : Type 0 where
  pub quotient : ℕ → ℕ → S
  pub difference_quotient : ℕ → ℕ → ℕ → S
  pub as_fraction : S → Fraction
  pub in_unit : S → Bool
  pub in_signed_unit : S → Bool
  pub in_unit-quotient : (n d : ℕ) → n ≤ d → 1 ≤ d → in_unit (quotient n d) ≡ true
  pub in_signed_unit-difference :
      (a b d : ℕ) → a ≤ d → b ≤ d → 1 ≤ d → in_signed_unit (difference_quotient a b d) ≡ true
  -- `{x:.6f}` and `{x:.6g}`
  pub fixed : S → String
  pub general : S → String

pub record Tally : Type 0 where
  pub both_correct : ℕ
  pub baseline_only_correct : ℕ
  pub candidate_only_correct : ℕ
  pub neither_correct : ℕ

-- The id and the digest of a variant.
pub record VariantRef : Type 0 where
  pub id : String
  pub sha256 : String

abbrev pub same_variant : VariantRef → VariantRef → Bool
same_variant a b = a.id == b.id && a.sha256 == b.sha256

-- What evidence is bound to: dataset, partition and their public digests.
pub record Commitment : Type 0 where
  pub dataset_id : String
  pub partition_id : String
  pub public_dataset_sha256 : String
  pub public_partition_sha256 : String

abbrev pub same_commitment : Commitment → Commitment → Bool
same_commitment a b =
    a.dataset_id == b.dataset_id
    && a.partition_id == b.partition_id
    && a.public_dataset_sha256 == b.public_dataset_sha256
    && a.public_partition_sha256 == b.public_partition_sha256

pub record PairedEvaluationReport (S : Type 0) : Type 0 where
  pub evidence_id : String
  pub role : PromotionEvidenceRole
  pub commitment : Commitment
  pub baseline : VariantRef
  pub candidate : VariantRef
  pub total : ℕ
  pub counts : Tally
  pub baseline_score : S
  pub candidate_score : S

pub record PromotionGateRule (S : Type 0) : Type 0 where
  pub role : PromotionEvidenceRole
  pub min_total : ℕ
  pub min_candidate_score : S
  pub min_absolute_improvement : S
  pub min_discordant_pairs : ℕ
  pub max_one_sided_p_value : S

pub record PromotionGatePolicy (S : Type 0) : Type 0 where
  pub id : String
  pub rules : List (PromotionGateRule S)

pub record PromotionProposal (S : Type 0) : Type 0 where
  pub id : String
  pub baseline : VariantRef
  pub candidate : VariantRef
  pub evidence : List (PairedEvaluationReport S)

-- The reasons that a rule can give, with the numbers of their texts; those that the source prints
-- with six digits are the printed texts.
pub data GateReason : Type 0 where
  total_below discordant_below : (n least : ℕ) → GateReason
  not_better : GateReason
  score_below improvement_below : (score least : String) → GateReason
  p_value_above : (p_value most : String) → GateReason

pub record PromotionCheck (S : Type 0) : Type 0 where
  pub role : PromotionEvidenceRole
  pub evidence_id : String
  pub evidence_sha256 : String
  pub passed : Bool
  pub total : ℕ
  pub baseline_score : S
  pub candidate_score : S
  pub absolute_improvement : S
  pub discordant_pairs : ℕ
  pub candidate_only_correct : ℕ
  pub baseline_only_correct : ℕ
  pub one_sided_p_value : S
  pub reasons : List GateReason

abbrev pub is_empty {ℓ} : {A : Type ℓ} → List A → Bool
is_empty [] = true
is_empty (x ∷ xs) = false

-- `len(set(commitments)) != 1`, for a list that is not empty
unfoldable pub share_commitment : List Commitment → Bool
share_commitment [] = false
share_commitment (c ∷ commitments) = all (same_commitment c) commitments

module _ {S : Type 0} ⦃e : Eq S⦄ (scores : Scores S) where
  -- `PairedEvaluationReport(...)`: the ranges, then `counts_and_scores_must_be_consistent`
  unfoldable pub validated_report :
      PairedEvaluationReport S → Result PromotionError (PairedEvaluationReport S)
  validated_report r = do
    let t = r.counts
    refuse (not (within 1 10000 r.total)) bad_total
    refuse (not (scores.in_unit r.baseline_score && scores.in_unit r.candidate_score)) bad_score
    refuse
        (not (
          t.both_correct + t.baseline_only_correct + t.candidate_only_correct + t.neither_correct
          == r.total))
        bad_counts
    refuse
        (not
          (r.baseline_score == scores.quotient (t.both_correct + t.baseline_only_correct) r.total))
        bad_score
    refuse
        (not (
          r.candidate_score == scores.quotient (t.both_correct + t.candidate_only_correct) r.total))
        bad_score
    refuse (r.baseline.id == r.candidate.id) same_variants
    refuse (r.baseline.sha256 == r.candidate.sha256) same_variants
    ok r

  unfoldable pub validated_reports :
      List (PairedEvaluationReport S) → Result PromotionError (Unit {0})
  unfolding validated_report
  validated_reports [] = ok tt
  validated_reports (r ∷ reports) = validated_report r >>= λ r'. validated_reports reports

  -- `PromotionGatePolicy(...)`; a fraction above zero has a numerator.
  unfoldable pub validated_policy :
      PromotionGatePolicy S → Result PromotionError (PromotionGatePolicy S)
  validated_policy policy = do
    refuse (not (within 1 2 (length policy.rules))) wrong_length
    refuse
        (any
          (λ rule. not (
            within 1 10000 rule.min_total
            && scores.in_unit rule.min_candidate_score
            && scores.in_unit rule.min_absolute_improvement
            && within 1 10000 rule.min_discordant_pairs
            && scores.in_unit rule.max_one_sided_p_value
            && leb 1 (scores.as_fraction rule.max_one_sided_p_value).numerator))
          policy.rules)
        bad_rule
    refuse (not (all_unique (map (λ rule. rule.role) policy.rules))) repeated_role
    ok policy

  -- `PromotionProposal(...)` with `proposal_must_be_unambiguous`
  unfoldable pub validated_proposal :
      PromotionProposal S → Result PromotionError (PromotionProposal S)
  unfolding validated_reports share_commitment
  validated_proposal p = do
    refuse (not (within 1 2 (length p.evidence))) wrong_length
    validated_reports p.evidence
    refuse (p.baseline.id == p.candidate.id) same_variants
    refuse (p.baseline.sha256 == p.candidate.sha256) same_variants
    refuse (any (λ r. not (same_variant r.baseline p.baseline)) p.evidence) wrong_baseline
    refuse (any (λ r. not (same_variant r.candidate p.candidate)) p.evidence) wrong_candidate
    refuse (not (all_unique (map (λ r. r.role) p.evidence))) repeated_role
    refuse (not (all_unique (map (λ r. r.evidence_id) p.evidence))) repeated_evidence
    refuse (not (share_commitment (map (λ r. r.commitment) p.evidence))) different_commitments
    ok p

  -- `PromotionCheck(...)` with `status_must_match_reasons`
  unfoldable pub validated_check : PromotionCheck S → Result PromotionError (PromotionCheck S)
  validated_check c = do
    refuse (not (leb 1 c.total)) bad_total
    refuse
        (not (
          scores.in_unit c.baseline_score
          && scores.in_unit c.candidate_score
          && scores.in_signed_unit c.absolute_improvement
          && scores.in_unit c.one_sided_p_value))
        bad_score
    refuse (if c.passed then not (is_empty c.reasons) else is_empty c.reasons) reasons_mismatch
    ok c
