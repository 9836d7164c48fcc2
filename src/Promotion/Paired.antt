-- ===== src/Promotion/Paired.antt =====
-- The counts of the paired comparison in src/e2h/promotion_comparison.py.
use e2h.Prelude.{
  ℕ, suc, ◌+◌, ◌≤◌, ◌≡◌, ap, Bool, true, false, String, List, [], ◌∷◌, ◌==◌, ==-refl, text_eq,
  number_eq, Eq, length, inl, inr, arith,
}
use e2h.Result.{ok, Result-cases}
use e2h.Dict.{Dict, lookup}
use e2h.Promotion.Evidence.{Scores, Commitment, Tally, validated_report}
use e2h.Promotion.Comparison.{
  VariantPredictionDocument, start_tally, count_outcome, found, count_outcomes, built_report,
}

abbrev pub sum_of : Tally → ℕ
sum_of t = t.both_correct + t.baseline_only_correct + t.candidate_only_correct + t.neither_correct

sum-count_outcome : (b c : Bool) (t : Tally) → sum_of (count_outcome b c t) ≡ suc (sum_of t)
unfolding count_outcome
sum-count_outcome true true t = omega arith
sum-count_outcome true false t = omega arith
sum-count_outcome false true t = omega arith
sum-count_outcome false false t = omega arith

module _ {O : Type 0} (output_keys : O → List String) (canonical : O → String) where
  sum-count_outcomes :
      (examples baseline candidate : Dict O) (ids : List String) (t t' : Tally)
      → count_outcomes output_keys canonical examples baseline candidate ids t ≡ ok t'
      → sum_of t' ≡ length ids + sum_of t
  unfolding count_outcomes
  sum-count_outcomes examples baseline candidate [] t t' h =
      let same : t ≡ t' = ground (arith, h) in omega (arith, ap sum_of same)
  sum-count_outcomes examples baseline candidate (example_id ∷ ids) t t' h =
      elim (Result-cases (found (lookup example_id examples))) [
        | inr (problem, refused) ↦ absurd (ground (arith, h, refused))
        | inl (expected, e) ↦ elim (Result-cases (found (lookup example_id baseline))) [
          | inr (problem, refused) ↦ absurd (ground (arith, h, e, refused))
          | inl (b, f) ↦ elim (Result-cases (found (lookup example_id candidate))) [
            | inr (problem, refused) ↦ absurd (ground (arith, h, e, f, refused))
            | inl (c, g) ↦
                let right = canonical b == canonical expected in
                let left = canonical c == canonical expected in
                omega (
                  arith,
                  sum-count_outcome right left t,
                  sum-count_outcomes examples baseline candidate ids (count_outcome right left t) t'
                      (ground (arith, h, e, f, g)),
                )
          ]
        ]
      ]

  module _ {S : Type 0} ⦃e : Eq S⦄ (scores : Scores S) where
    -- Between two variants that differ in id and digest, over at least one example and at most 10000,
    -- the report built from the counts of the loop is accepted by its own validator: every example
    -- is counted exactly once, and the scores are those of the counts.
    pub counted_report-accepted :
        (examples b c : Dict O) (ids : List String) (t : Tally) (evidence_id : String)
        (commitment : Commitment) (baseline candidate : VariantPredictionDocument O)
        → count_outcomes output_keys canonical examples b c ids start_tally ≡ ok t
        → (baseline.variant.id == candidate.variant.id) ≡ false
        → (baseline.variant.sha256 == candidate.variant.sha256) ≡ false
        → 1 ≤ length ids
        → length ids ≤ 10000
        → validated_report scores (
            built_report output_keys canonical scores evidence_id commitment baseline candidate
              (length ids)
              t)
          ≡ ok (
              built_report output_keys canonical scores evidence_id commitment baseline candidate
                (length ids)
                t)
    unfolding validated_report start_tally
    counted_report-accepted examples b c ids t evidence_id commitment baseline candidate h other_id
          other_sha least most =
        let total = sum-count_outcomes examples b c ids start_tally t h in
        ground (
          arith,
          total,
          other_id,
          other_sha,
          least,
          most,
          ==-refl (scores.quotient (t.both_correct + t.baseline_only_correct) (length ids)),
          ==-refl (scores.quotient (t.both_correct + t.candidate_only_correct) (length ids)),
          scores.in_unit-quotient (t.both_correct + t.baseline_only_correct) (length ids),
          scores.in_unit-quotient (t.both_correct + t.candidate_only_correct) (length ids),
          number_eq.equal_iff (sum_of t) (length ids),
        )
