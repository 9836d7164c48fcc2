-- ===== src/LongHorizon/Evaluation/Accepted.antt =====
-- The report of `evaluate_long_horizon_predictions` in src/e2h/long_horizon.py passes its validators.
use e2h.Prelude.{
  ◌+◌, ◌≤◌, ◌≡◌, ◌∙◌, ap, refl, true, String, List, [], ◌∷◌, text_eq, number_eq, contains,
  count_if-append, count_if-contains, count_if-le-length, length, length-map, length-append, within,
  inl, inr, arith,
}
use e2h.Result.{ok, Result-cases}
use e2h.LongHorizon.{LongHorizonTask, LongHorizonCorpus, each, validated_task, validated_corpus}
use e2h.LongHorizon.Replay.Facts.{task-Facts}
use e2h.LongHorizon.Scoring.{
  PublicLongHorizonCorpus, exported, LongHorizonPredictionDocument, LongHorizonEvaluationReport,
  pair_eq, Submitted, pairs_of, valid_pairs, collect_submitted, validated_predictions,
}
use e2h.LongHorizon.Scoring.Pairs.{probe_pair, valid_pairs_unique}
use e2h.LongHorizon.Scoring.Submissions.{pairs_in, collect_submitted-known}
use e2h.LongHorizon.Evaluation.{
  Quotients, Scored, sum_by, validated_report, score_tasks, evaluate_long_horizon_predictions,
}
use e2h.LongHorizon.Evaluation.Counted.{present, Added, score_task-Added}

module _ {S : Type 0} (quotients : Quotients S) where
  score_tasks-Added :
      (submitted : Submitted) (scored : Scored S) (tasks : List LongHorizonTask)
      → each validated_task tasks ≡ ok tt
      → (next : Scored S) × (score_tasks quotients submitted scored tasks ≡ ok next)
        × (length next.task_scores ≡ length tasks + length scored.task_scores)
        × Added submitted (valid_pairs tasks) scored next
  unfolding score_tasks
  score_tasks-Added submitted scored [] valid = (
    scored,
    refl,
    omega arith,
    record {
      right = 0;
      right_small = omega arith;
      total_added = omega arith;
      totals_added = omega arith;
      submitted_added = omega arith;
      correct_added = omega arith;
      corrects_added = omega arith;
    },
  )
  score_tasks-Added submitted scored (task ∷ tasks) valid =
      elim (Result-cases (validated_task task)) [
        | inr (problem, refused) ↦ absurd (ground (arith, valid, refused))
        | inl (done, fits) ↦
            let (middle, made, size, first) =
              score_task-Added quotients submitted scored task (ground (arith, fits)) in
            let (next, rest, size', others) =
              score_tasks-Added submitted middle tasks (ground (arith, valid, fits)) in
            let pairs = length-append (pairs_of task) (valid_pairs tasks) in
            let count =
              count_if-append (λ p. contains p (pairs_in submitted)) (pairs_of task)
                (valid_pairs tasks) in
            (
              next,
              rw made rest,
              omega (arith, size, size'),
              record {
                right = first.right + others.right;
                right_small = omega (arith, count, first.right_small, others.right_small);
                total_added = omega (arith, pairs, first.total_added, others.total_added);
                totals_added = omega (arith, pairs, first.totals_added, others.totals_added);
                submitted_added =
                    omega (arith, count, first.submitted_added, others.submitted_added);
                correct_added = omega (arith, first.correct_added, others.correct_added);
                corrects_added = omega (arith, first.corrects_added, others.corrects_added);
              },
            )
      ]

  -- A report with these counts passes the validator.
  report-accepted :
      (r : LongHorizonEvaluationReport S)
      → 1 ≤ r.total
      → r.submitted ≤ r.total
      → r.correct ≤ r.submitted
      → r.score ≡ quotients.quotient r.correct r.total
      → within 1 1000 (length r.task_scores) ≡ true
      → sum_by (λ s. s.total) r.task_scores ≡ r.total
      → sum_by (λ s. s.submitted) r.task_scores ≡ r.submitted
      → sum_by (λ s. s.correct) r.task_scores ≡ r.correct
      → validated_report quotients r ≡ ok r
  unfolding validated_report
  report-accepted r some_total low high score size totals submitteds corrects =
      let unit : quotients.in_unit r.score ≡ true =
        ap quotients.in_unit score
        ∙ quotients.in_unit-quotient r.correct r.total (omega (arith, low, high)) some_total in
      let close : quotients.is_close r.score (quotients.quotient r.correct r.total) ≡ true =
        ap (λ q. quotients.is_close q (quotients.quotient r.correct r.total)) score
        ∙ quotients.is_close-quotient r.correct r.total in
      ground (
        arith,
        some_total,
        low,
        high,
        unit,
        close,
        size,
        number_eq.equal_iff (sum_by (λ s. s.total) r.task_scores) r.total,
        totals,
        number_eq.equal_iff (sum_by (λ s. s.submitted) r.task_scores) r.submitted,
        submitteds,
        number_eq.equal_iff (sum_by (λ s. s.correct) r.task_scores) r.correct,
        corrects,
      )

  some-pair :
      (tasks : List LongHorizonTask)
      → each validated_task tasks ≡ ok tt
      → 1 ≤ length tasks
      → 1 ≤ length (valid_pairs tasks)
  some-pair [] valid h = h
  some-pair (task ∷ tasks) valid h = elim (Result-cases (validated_task task)) [
    | inr (problem, refused) ↦ absurd (ground (arith, valid, refused))
    | inl (done, fits) ↦ omega (
      arith,
      (task-Facts task (ground (arith, fits))).some_probe,
      length-map (probe_pair task.id) task.probes,
      length-append (pairs_of task) (valid_pairs tasks),
    )
  ]

  -- For a valid corpus and valid predictions that are bound to it and whose pairs and keys it
  -- declares, `evaluate_long_horizon_predictions` gives a report: its validators accept the counts.
  -- The report's total is the number of the corpus's probes, the tasks' submitted counts add up to
  -- the number of entries in the table of submitted predictions, which is the report's, and the
  -- score is the quotient of the report's correct count and total.
  pub evaluate_long_horizon_predictions-accepted :
      (public_sha256 : PublicLongHorizonCorpus → String) (corpus : LongHorizonCorpus)
      (predictions : LongHorizonPredictionDocument) (submitted : Submitted)
      → validated_corpus corpus ≡ ok corpus
      → validated_predictions predictions ≡ ok predictions
      → predictions.public_corpus_sha256 ≡ public_sha256 (exported corpus)
      → collect_submitted corpus.tasks [] predictions.predictions ≡ ok submitted
      → (report : LongHorizonEvaluationReport S) × (evaluate_long_horizon_predictions quotients
            public_sha256 corpus predictions
          ≡ ok report)
        × (report.total ≡ length (valid_pairs corpus.tasks))
        × (report.submitted ≡ length submitted)
        × (sum_by (λ s. s.submitted) report.task_scores ≡ length submitted)
        × (report.score ≡ quotients.quotient report.correct report.total)
  unfolding evaluate_long_horizon_predictions validated_corpus
  evaluate_long_horizon_predictions-accepted public_sha256 corpus predictions submitted v w digest
        collected =
      elim (Result-cases (each validated_task corpus.tasks)) [
        | inr (problem, refused) ↦ absurd (ground (arith, v, refused))
        | inl (done, each_valid) ↦
            let valid : each validated_task corpus.tasks ≡ ok tt = ground (arith, each_valid) in
            let start : Scored S = record { total = 0; correct = 0; task_scores = [] } in
            let (scored, made, size, added) =
              score_tasks-Added submitted start corpus.tasks valid in
            let (unique, known) =
              collect_submitted-known corpus.tasks [] submitted predictions.predictions collected
                refl refl in
            let pairs = valid_pairs_unique corpus.tasks valid (ground (arith, v, each_valid)) in
            let count : present submitted (valid_pairs corpus.tasks) ≡ length submitted =
              count_if-contains (pairs_in submitted) (valid_pairs corpus.tasks) unique pairs known
              ∙ length-map (λ item. item.0) submitted in
            let few =
              count_if-le-length (λ p. contains p (pairs_in submitted))
                (valid_pairs corpus.tasks) in
            let some_pair = some-pair corpus.tasks valid (ground (arith, v)) in
            let report : LongHorizonEvaluationReport S = record {
              corpus_id = corpus.id;
              public_corpus_sha256 = public_sha256 (exported corpus);
              total = scored.total;
              submitted = length submitted;
              correct = scored.correct;
              score = quotients.quotient scored.correct scored.total;
              task_scores = scored.task_scores;
            } in
            let sizes : length scored.task_scores ≡ length corpus.tasks = omega (arith, size) in
            let accepted =
              report-accepted report (omega (arith, some_pair, added.total_added))
                (omega (arith, count, few, added.total_added))
                (omega (arith, count, added.correct_added, added.right_small)) refl
                (ap (within 1 1000) sizes ∙ ground (arith, v))
                (omega (arith, added.total_added, added.totals_added))
                (omega (arith, added.submitted_added, count))
                (omega (arith, added.correct_added, added.corrects_added)) in
            (
              report,
              rw (v, w, collected, made)
                  (ground (
                    arith,
                    digest,
                    text_eq.equal_iff predictions.public_corpus_sha256
                        (public_sha256 (exported corpus)),
                    accepted,
                  )),
              omega (arith, added.total_added),
              refl,
              omega (arith, added.submitted_added, count),
              refl,
            )
      ]
