-- ===== src/Promotion/Decision.antt =====
-- `PromotionDecision` of src/e2h/promotion_lifecycle.py and `evaluate_promotion` of
-- src/e2h/promotion_decision_ops.py. The digests of the artifacts are parameters.
pub mod Reports
pub mod Checks
pub mod Distinct
pub mod Accepted
pub mod Promoted
use e2h.Prelude.{
  within, ℕ, Bool, true, false, not, ◌&&◌, ◌||◌, String, Option, List, [], ◌∷◌, map, all, ◌==◌,
  text_eq, number_eq, Eq, eq_of, all_unique, length, if◌then◌else◌,
}
use e2h.Result.{Result, ok, err, refuse, collect, ◌>>=◌, ◌>>◌}
use e2h.Promotion.Evidence.{
  role_eq, PromotionError, wrong_policy, wrong_proposal, wrong_baseline, wrong_candidate,
  repeated_role, repeated_evidence, wrong_length, wrong_checks, wrong_decision, Scores, VariantRef,
  same_variant, PairedEvaluationReport, PromotionGatePolicy, PromotionProposal, PromotionCheck,
  GateReason, total_below, not_better, score_below, improvement_below, discordant_below,
  p_value_above, validated_policy, validated_proposal, validated_check,
}
use e2h.Promotion.Gate.{promotion_checks}

pub data PromotionDecisionKind : Type 0 where
  promote reject : PromotionDecisionKind

unfoldable pub PromotionDecisionKind-discrete : Discrete PromotionDecisionKind
PromotionDecisionKind-discrete = hlevel

instance abbrev pub kind_eq : Eq PromotionDecisionKind
kind_eq = eq_of PromotionDecisionKind-discrete

pub record PromotionDecision (S : Type 0) : Type 0 where
  pub policy : PromotionGatePolicy S
  pub proposal : PromotionProposal S
  pub policy_id : String
  pub policy_sha256 : String
  pub proposal_id : String
  pub proposal_sha256 : String
  pub baseline : VariantRef
  pub candidate : VariantRef
  pub decision : PromotionDecisionKind
  pub checks : List (PromotionCheck S)

-- The canonical identities of the artifacts.
pub record Digests (S : Type 0) : Type 0 where
  pub report : PairedEvaluationReport S → String
  pub policy : PromotionGatePolicy S → String
  pub proposal : PromotionProposal S → String
  pub decision : PromotionDecision S → String

abbrev pub same_flag : Bool → Bool → Bool
same_flag a b = if a then b else not b

abbrev pub same_reason : GateReason → GateReason → Bool
same_reason (total_below n k) (total_below m l) = n == m && k == l
same_reason not_better not_better = true
same_reason (score_below n k) (score_below m l) = n == m && k == l
same_reason (improvement_below n k) (improvement_below m l) = n == m && k == l
same_reason (discordant_below n k) (discordant_below m l) = n == m && k == l
same_reason (p_value_above n k) (p_value_above m l) = n == m && k == l
same_reason _ _ = false

unfoldable pub same_reasons : List GateReason → List GateReason → Bool
same_reasons [] [] = true
same_reasons (r ∷ reasons) (q ∷ others) = same_reason r q && same_reasons reasons others
same_reasons _ _ = false

module _ {S : Type 0} ⦃e : Eq S⦄ where
  -- `==` on two checks
  unfoldable pub same_check : PromotionCheck S → PromotionCheck S → Bool
  unfolding same_reasons
  same_check a b =
      a.role == b.role
      && a.evidence_id == b.evidence_id
      && a.evidence_sha256 == b.evidence_sha256
      && same_flag a.passed b.passed
      && a.total == b.total
      && a.baseline_score == b.baseline_score
      && a.candidate_score == b.candidate_score
      && a.absolute_improvement == b.absolute_improvement
      && a.discordant_pairs == b.discordant_pairs
      && a.candidate_only_correct == b.candidate_only_correct
      && a.baseline_only_correct == b.baseline_only_correct
      && a.one_sided_p_value == b.one_sided_p_value
      && same_reasons a.reasons b.reasons

  unfoldable pub same_checks : List (PromotionCheck S) → List (PromotionCheck S) → Bool
  unfolding same_check
  same_checks [] [] = true
  same_checks (a ∷ as_) (b ∷ bs) = same_check a b && same_checks as_ bs
  same_checks _ _ = false

  module _ (scores : Scores S) (digests : Digests S) where
    -- `PromotionDecision(...)`: the embedded artifacts are validated again, then
    -- `decision_must_verify_its_source_chain`
    unfoldable pub validated_decision :
        PromotionDecision S → Result PromotionError (PromotionDecision S)
    validated_decision d = do
      policy ← validated_policy scores d.policy
      proposal ← validated_proposal scores d.proposal
      refuse (not (within 1 2 (length d.checks))) wrong_length
      checks ← collect (validated_check scores) d.checks
      refuse (not (d.policy_id == d.policy.id)) wrong_policy
      refuse (not (d.policy_sha256 == digests.policy d.policy)) wrong_policy
      refuse (not (d.proposal_id == d.proposal.id)) wrong_proposal
      refuse (not (d.proposal_sha256 == digests.proposal d.proposal)) wrong_proposal
      refuse (not (same_variant d.baseline d.proposal.baseline)) wrong_baseline
      refuse (not (same_variant d.candidate d.proposal.candidate)) wrong_candidate
      refuse (not (all_unique (map (λ c. c.role) d.checks))) repeated_role
      refuse (not (all_unique (map (λ c. c.evidence_id) d.checks))) repeated_evidence
      expected ← promotion_checks scores digests.report d.policy d.proposal
      refuse (not (same_checks d.checks expected)) wrong_checks
      refuse (not (same_flag (d.decision == promote) (all (λ c. c.passed) d.checks))) wrong_decision
      ok d

    abbrev pub built_decision :
        PromotionGatePolicy S → PromotionProposal S → List (PromotionCheck S) → PromotionDecision S
    built_decision policy proposal checks = record {
      policy = policy;
      proposal = proposal;
      policy_id = policy.id;
      policy_sha256 = digests.policy policy;
      proposal_id = proposal.id;
      proposal_sha256 = digests.proposal proposal;
      baseline = proposal.baseline;
      candidate = proposal.candidate;
      decision = if all (λ c. c.passed) checks then promote else reject;
      checks = checks;
    }

    -- `evaluate_promotion`
    unfoldable pub evaluate_promotion :
        PromotionGatePolicy S → PromotionProposal S → Result PromotionError (PromotionDecision S)
    evaluate_promotion policy proposal = do
      policy' ← validated_policy scores policy
      proposal' ← validated_proposal scores proposal
      checks ← promotion_checks scores digests.report policy' proposal'
      validated_decision (built_decision policy' proposal' checks)
