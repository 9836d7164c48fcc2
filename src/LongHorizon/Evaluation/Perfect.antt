-- ===== src/LongHorizon/Evaluation/Perfect.antt =====
-- Predictions that report the constraints in force score full marks in src/e2h/long_horizon.py.
use e2h.Prelude.{
  ◌+◌, ◌≡◌, ◌∙◌, ap, sym, refl, true, String, none, some, List, [], ◌∷◌, text_eq, number_eq, length,
  length-map, length-append, inl, inr, arith,
}
use e2h.Result.{ok, Result-cases}
use e2h.Dict.{Dict, lookup, same_items}
use e2h.Dict.Lookup.{IsDict, same_items_intro}
use e2h.LongHorizon.{
  LongHorizonProbe, LongHorizonTask, LongHorizonCorpus, each, validated_task, validated_corpus,
}
use e2h.LongHorizon.Replay.Last.{last_value}
use e2h.LongHorizon.Replay.Probes.{Among}
use e2h.LongHorizon.Replay.Expected.{history, expected_probe_states-last}
use e2h.LongHorizon.Scoring.{
  PublicLongHorizonCorpus, exported, LongHorizonPredictionDocument, LongHorizonTaskScore,
  LongHorizonEvaluationReport, Submitted, submission, pairs_of, valid_pairs, collect_submitted,
  validated_predictions,
}
use e2h.LongHorizon.Scoring.Pairs.{probe_pair}
use e2h.LongHorizon.Evaluation.{
  Quotients, Sums, counted, score_probes, Scored, validated_task_score, validated_report,
  score_task, score_tasks, evaluate_long_horizon_predictions,
}
use e2h.LongHorizon.Evaluation.Counted.{score_probe-given, score_probes-cons}
use e2h.LongHorizon.Evaluation.Accepted.{evaluate_long_horizon_predictions-accepted}

-- The table has, for each probe of the task, the values of the last updates up to the probe.
abbrev pub TellsTruth : Submitted → LongHorizonTask → Type 0
TellsTruth submitted task =
    (p : LongHorizonProbe)
    → Among p task.probes
    → (c : Dict String) × (submission (probe_pair task.id p) submitted ≡ some c)
      × IsDict c
      × ((k : String) → lookup k c ≡ last_value k none (history p.after_turn_id task.turns))

abbrev pub AllTellTruth : Submitted → List LongHorizonTask → Type 0
AllTellTruth submitted [] = Unit
AllTellTruth submitted (task ∷ tasks) = TellsTruth submitted task × AllTellTruth submitted tasks

-- The table and the expected states agree at a probe.
Right : Dict (Dict String) → Submitted → String → LongHorizonProbe → Type 0
Right expected submitted task_id p =
    (c : Dict String) × (w : Dict String) × (submission (probe_pair task_id p) submitted ≡ some c)
    × (lookup p.id expected ≡ some w)
    × (same_items c w ≡ true)

score_probes-Right :
    (expected : Dict (Dict String)) (submitted : Submitted) (task_id : String) (sums : Sums)
    (probes : List LongHorizonProbe)
    → ((p : LongHorizonProbe) → Among p probes → Right expected submitted task_id p)
    → (next : Sums) × (score_probes expected submitted task_id sums probes ≡ ok next)
      × (next.correct ≡ length probes + sums.correct)
unfolding score_probes Right
score_probes-Right expected submitted task_id sums [] right = (sums, refl, omega arith)
score_probes-Right expected submitted task_id sums (p ∷ probes) right =
    let (c, w, given, known, same) = right p (inl refl) in
    let (next, scored, correct) =
      score_probes-Right expected submitted task_id (counted (same_items c w) sums) probes
        (λ q among. right q (inr among)) in
    (
      next,
      score_probes-cons expected submitted task_id sums p probes (counted (same_items c w) sums)
          next (score_probe-given expected submitted task_id sums p c w given known) scored,
      ground (arith, correct, same),
    )

module _ {S : Type 0} (quotients : Quotients S) where
  score_task-right :
      (submitted : Submitted) (scored next : Scored S) (task : LongHorizonTask)
      → validated_task task ≡ ok tt
      → TellsTruth submitted task
      → score_task quotients submitted scored task ≡ ok next
      → next.correct ≡ length task.probes + scored.correct
  unfolding score_task Right
  score_task-right submitted scored next task valid truth h =
      let (expected, made, at) = expected_probe_states-last task valid in
      let start : Sums = record {
        total = scored.total;
        correct = scored.correct;
        task_submitted = 0;
        task_correct = 0;
      } in
      let (sums, done, correct) =
        score_probes-Right expected submitted task.id start task.probes (λ p among.
          let (c, given, d, values) = truth p among in
          let (w, known, d', values') = at p among in
          (c, w, given, known, same_items_intro c w d d' (λ k. values k ∙ sym (values' k)))) in
      let score : LongHorizonTaskScore S = record {
        task_id = task.id;
        total = length task.probes;
        submitted = sums.task_submitted;
        correct = sums.task_correct;
        score = quotients.quotient sums.task_correct (length task.probes);
      } in
      elim (Result-cases (validated_task_score quotients score)) [
        | inr (problem, refused) ↦ absurd (ground (arith, h, made, done, refused))
        | inl (score', valid_score) ↦
            let same : sums.correct ≡ next.correct = ground (arith, h, made, done, valid_score) in
            sym same ∙ correct
      ]

  score_tasks-right :
      (submitted : Submitted) (scored last : Scored S) (tasks : List LongHorizonTask)
      → each validated_task tasks ≡ ok tt
      → AllTellTruth submitted tasks
      → score_tasks quotients submitted scored tasks ≡ ok last
      → last.correct ≡ length (valid_pairs tasks) + scored.correct
  unfolding score_tasks
  score_tasks-right submitted scored last [] valid truth h =
      let same : scored ≡ last = ground (arith, h) in omega (arith, ap (λ s. s.correct) same)
  score_tasks-right submitted scored last (task ∷ tasks) valid truth h =
      elim (Result-cases (validated_task task)) [
        | inr (problem, refused) ↦ absurd (ground (arith, valid, refused))
        | inl (done, fits) ↦ elim (Result-cases (score_task quotients submitted scored task)) [
          | inr (problem, refused) ↦ absurd (ground (arith, h, refused))
          | inl (middle, made) ↦
              let first =
                score_task-right submitted scored middle task (ground (arith, fits)) truth.0 made in
              let rest =
                score_tasks-right submitted middle last tasks (ground (arith, valid, fits)) truth.1
                  (ground (arith, h, made)) in
              omega (
                arith,
                first,
                rest,
                length-append (pairs_of task) (valid_pairs tasks),
                length-map (probe_pair task.id) task.probes,
              )
        ]
      ]

  -- Where the predictions for a valid corpus are accepted and the table of submitted ones tells for
  -- each probe the values that the last updates up to its turn set, the evaluation gives a report
  -- in which every probe of the corpus is correct.
  pub evaluate_long_horizon_predictions-perfect :
      (public_sha256 : PublicLongHorizonCorpus → String) (corpus : LongHorizonCorpus)
      (predictions : LongHorizonPredictionDocument) (submitted : Submitted)
      → validated_corpus corpus ≡ ok corpus
      → validated_predictions predictions ≡ ok predictions
      → predictions.public_corpus_sha256 ≡ public_sha256 (exported corpus)
      → collect_submitted corpus.tasks [] predictions.predictions ≡ ok submitted
      → AllTellTruth submitted corpus.tasks
      → (report : LongHorizonEvaluationReport S) × (evaluate_long_horizon_predictions quotients
            public_sha256 corpus predictions
          ≡ ok report)
        × (report.correct ≡ report.total)
        × (report.total ≡ length (valid_pairs corpus.tasks))
  unfolding evaluate_long_horizon_predictions validated_corpus validated_report
  evaluate_long_horizon_predictions-perfect public_sha256 corpus predictions submitted v w digest
        collected truth =
      let (report, made, total, counted_all, tallied, scored_as) =
        evaluate_long_horizon_predictions-accepted quotients public_sha256 corpus predictions
          submitted v w digest collected in
      let start : Scored S = record { total = 0; correct = 0; task_scores = [] } in
      elim (Result-cases (each validated_task corpus.tasks)) [
        | inr (problem, refused) ↦ absurd (ground (arith, v, refused))
        | inl (done, fits) ↦
            elim (Result-cases (score_tasks quotients submitted start corpus.tasks)) [
              | inr (problem, refused) ↦ absurd (ground (arith, made, v, w, collected, refused))
              | inl (scored, scoring) ↦
                  let correct =
                    score_tasks-right submitted start scored corpus.tasks (ground (arith, fits))
                      truth scoring in
                  let same : scored.correct ≡ report.correct =
                    ground (arith, made, v, w, collected, scoring) in
                  (report, made, omega (arith, correct, same, total), total)
            ]
      ]
