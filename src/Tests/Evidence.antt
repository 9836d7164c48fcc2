-- ===== src/Tests/Evidence.antt =====
-- A rule, a report of five examples that only the candidate gets right, and what is made of them.
use Prim.Native.String.{◌++◌ as append_text}
use e2h.Prelude.{String, zero, suc, ℕ, ◌-◌, ◌*◌, ◌/◌, refl, true, [], ◌∷◌, leb, ltb, number_eq}
use e2h.Promotion.Evidence.{
  PromotionEvidenceRole, Scores, VariantRef, Commitment, PairedEvaluationReport, PromotionGateRule,
  PromotionGatePolicy, PromotionProposal, PromotionCheck,
}
use e2h.Promotion.Gate.{check_of}
use e2h.Promotion.Decision.{PromotionDecision, Digests, built_decision}
use e2h.Promotion.Receipt.{
  RollbackOperator, RollbackTrigger, RollbackPlan, PromotionReceipt, Metrics, Seals, built_receipt,
}

-- A number is printed as that many strokes.
abbrev strokes : ℕ → String
strokes zero = ""
strokes (suc n) = append_text "|" (strokes n)

-- Scores in thousandths; a difference is cut off at zero.
abbrev pub thousandths : Scores ℕ
thousandths = record {
  quotient = λ n d. n * 1000 / d;
  difference_quotient = λ a b d. (a - b) * 1000 / d;
  as_fraction = λ s. record { numerator = s; denominator = 1000 };
  fixed = strokes;
  general = strokes;
  in_unit = λ s. true;
  in_signed_unit = λ s. true;
  in_unit-quotient = λ n d small positive. refl;
  in_signed_unit-difference = λ a b d small small' positive. refl;
}

abbrev pub old_variant : VariantRef
old_variant = record { id = "old"; sha256 = "a" }

abbrev pub new_variant : VariantRef
new_variant = record { id = "new"; sha256 = "b" }

abbrev pub commitment : Commitment
commitment = record {
  dataset_id = "set";
  partition_id = "part";
  public_dataset_sha256 = "d";
  public_partition_sha256 = "p";
}

abbrev pub five_wins : PairedEvaluationReport ℕ
five_wins = record {
  evidence_id = "e1";
  role = PromotionEvidenceRole.validation;
  commitment = commitment;
  baseline = old_variant;
  candidate = new_variant;
  total = 5;
  counts = record {
    both_correct = 0;
    baseline_only_correct = 0;
    candidate_only_correct = 5;
    neither_correct = 0;
  };
  baseline_score = 0;
  candidate_score = 1000;
}

-- At most 50 thousandths; five wins have 31.
abbrev pub one_rule : PromotionGateRule ℕ
one_rule = record {
  role = PromotionEvidenceRole.validation;
  min_total = 5;
  min_candidate_score = 600;
  min_absolute_improvement = 100;
  min_discordant_pairs = 3;
  max_one_sided_p_value = 50;
}

abbrev pub gate : PromotionGatePolicy ℕ
gate = record { id = "gate"; rules = one_rule ∷ [] }

abbrev pub change : PromotionProposal ℕ
change = record {
  id = "change";
  baseline = old_variant;
  candidate = new_variant;
  evidence = five_wins ∷ [];
}

-- Ids stand for digests.
abbrev pub digests : Digests ℕ
digests = record {
  report = λ r. r.evidence_id;
  policy = λ p. p.id;
  proposal = λ p. p.id;
  decision = λ d. d.proposal_id;
}

abbrev pub passed : PromotionCheck ℕ
passed = check_of thousandths digests.report one_rule five_wins

abbrev pub promoted : PromotionDecision ℕ
promoted = built_decision thousandths digests gate change (passed ∷ [])

-- Numbers as metric values
abbrev pub numbers : Metrics ℕ
numbers = record { less = ltb; less_or_equal = leb; is_finite = λ v. true }

abbrev pub seals : Seals ℕ ℕ
seals = record { plan = λ p. p.id; receipt = λ r. r.policy_id }

abbrev pub on_errors : RollbackTrigger ℕ
on_errors = record {
  id = "errors";
  metric = "error_count";
  operator = RollbackOperator.gt;
  threshold = 10;
  min_samples = 20;
  window_seconds = 300;
}

abbrev pub plan : RollbackPlan ℕ
plan = record {
  id = "plan";
  promotion_decision_sha256 = "change";
  active_variant = new_variant;
  target_variant = old_variant;
  triggers = on_errors ∷ [];
}

abbrev pub receipt : PromotionReceipt ℕ ℕ
receipt = built_receipt thousandths digests numbers seals promoted plan
