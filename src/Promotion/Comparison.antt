-- ===== src/Promotion/Comparison.antt =====
-- The paired comparison of two variants, src/e2h/promotion_comparison.py. The partition's verification is given by its result; outputs are
-- a type with their keys and their canonical text.
use e2h.Prelude.{
  ℕ, suc, ◌+◌, Bool, true, false, not, ◌&&◌, ◌||◌, String, Option, none, some, List, [], ◌∷◌, map,
  any, all, ◌==◌, text_eq, number_eq, Eq, contains, length,
}
use e2h.Result.{Result, ok, err, refuse, ◌>>=◌, ◌>>◌}
use e2h.Dict.{Dict, lookup, put}
use e2h.Promotion.Evidence.{
  PromotionEvidenceRole, role_eq, PromotionError, different_roles, same_variants, wrong_dataset,
  wrong_partition, missing_examples, unexpected_examples, wrong_outputs, no_example, Scores, Tally,
  VariantRef, Commitment, PairedEvaluationReport, validated_report,
}

pub record VariantPrediction (O : Type 0) : Type 0 where
  pub example_id : String
  pub outputs : O

pub record VariantPredictionDocument (O : Type 0) : Type 0 where
  pub variant : VariantRef
  pub public_dataset_sha256 : String
  pub public_partition_sha256 : String
  pub role : PromotionEvidenceRole
  pub predictions : List (VariantPrediction O)

-- What the verification of the partition gives, with the ids of a role and the labels by id.
pub record Partition (O : Type 0) : Type 0 where
  pub commitment : Commitment
  pub output_fields : List String
  pub ids_for : PromotionEvidenceRole → List String
  pub examples : Dict O

-- `{prediction.example_id: prediction for prediction in predictions}`
unfoldable pub by_example : {O : Type 0} → Dict O → List (VariantPrediction O) → Dict O
unfolding put
by_example d [] = d
by_example d (p ∷ predictions) = by_example (put p.example_id p.outputs d) predictions

unfoldable pub start_tally : Tally
start_tally = record {
  both_correct = 0;
  baseline_only_correct = 0;
  candidate_only_correct = 0;
  neither_correct = 0;
}

-- The branches of the loop over the examples.
unfoldable pub count_outcome : Bool → Bool → Tally → Tally
count_outcome true true t = record t { both_correct = suc t.both_correct }
count_outcome true false t = record t { baseline_only_correct = suc t.baseline_only_correct }
count_outcome false true t = record t { candidate_only_correct = suc t.candidate_only_correct }
count_outcome false false t = record t { neither_correct = suc t.neither_correct }

abbrev pub found : {O : Type 0} → Option O → Result PromotionError O
found none = err no_example
found (some outputs) = ok outputs

module _ {O : Type 0} (output_keys : O → List String) (canonical : O → String) where
  abbrev same_fields : List String → List String → Bool
  same_fields a b = all (λ k. contains k b) a && all (λ k. contains k a) b

  unfoldable pub outputs_must_match : List String → Dict O → Result PromotionError (Unit {0})
  outputs_must_match fields [] = ok tt
  outputs_must_match fields ((example_id, outputs) ∷ predictions) =
      refuse (not (same_fields (output_keys outputs) fields)) wrong_outputs
      >> outputs_must_match fields predictions

  -- `_prediction_map`
  unfoldable pub prediction_map :
      VariantPredictionDocument O → List String → List String → Result PromotionError (Dict O)
  unfolding by_example outputs_must_match
  prediction_map document expected_ids output_fields = do
    let predictions = by_example [] document.predictions
    let actual_ids = map (λ p. p.0) predictions
    refuse (any (λ example_id. not (contains example_id actual_ids)) expected_ids) missing_examples
    refuse (any (λ example_id. not (contains example_id expected_ids)) actual_ids)
        unexpected_examples
    outputs_must_match output_fields predictions
    ok predictions

  -- The loop over the examples
  unfoldable pub count_outcomes :
      Dict O → Dict O → Dict O → List String → Tally → Result PromotionError Tally
  unfolding count_outcome lookup
  count_outcomes examples baseline candidate [] t = ok t
  count_outcomes examples baseline candidate (example_id ∷ ids) t = do
    expected ← found (lookup example_id examples)
    b ← found (lookup example_id baseline)
    c ← found (lookup example_id candidate)
    count_outcomes examples baseline candidate ids
        (count_outcome (canonical b == canonical expected) (canonical c == canonical expected) t)

  module _ {S : Type 0} ⦃e : Eq S⦄ (scores : Scores S) where
    abbrev pub built_report :
        String
        → Commitment
        → VariantPredictionDocument O
        → VariantPredictionDocument O
        → ℕ
        → Tally
        → PairedEvaluationReport S
    built_report evidence_id commitment baseline candidate total t = record {
      evidence_id = evidence_id;
      role = baseline.role;
      commitment = commitment;
      baseline = baseline.variant;
      candidate = candidate.variant;
      total = total;
      counts = t;
      baseline_score = scores.quotient (t.both_correct + t.baseline_only_correct) total;
      candidate_score = scores.quotient (t.both_correct + t.candidate_only_correct) total;
    }

    abbrev is_bound : Commitment → VariantPredictionDocument O → Result PromotionError (Unit {0})
    is_bound commitment document =
        refuse (not (document.public_dataset_sha256 == commitment.public_dataset_sha256))
          wrong_dataset
        >> refuse (not (document.public_partition_sha256 == commitment.public_partition_sha256))
            wrong_partition

    -- `compare_variant_predictions`, after the validation of its inputs
    unfoldable pub compare_variant_predictions :
        String
        → Partition O
        → VariantPredictionDocument O
        → VariantPredictionDocument O
        → Result PromotionError (PairedEvaluationReport S)
    unfolding prediction_map count_outcomes
    compare_variant_predictions evidence_id partition baseline candidate = do
      refuse (not (baseline.role == candidate.role)) different_roles
      refuse
          (baseline.variant.id == candidate.variant.id
            || baseline.variant.sha256 == candidate.variant.sha256)
          same_variants
      is_bound partition.commitment baseline
      is_bound partition.commitment candidate
      let ids = partition.ids_for baseline.role
      b ← prediction_map baseline ids partition.output_fields
      c ← prediction_map candidate ids partition.output_fields
      t ← count_outcomes partition.examples b c ids start_tally
      validated_report scores
          (built_report evidence_id partition.commitment baseline candidate (length ids) t)
