-- ===== src/LongHorizon/Evaluation.antt =====
-- The scores of `evaluate_long_horizon_predictions` of src/e2h/long_horizon.py. S is the type of
-- scores; the digest of the public export is a parameter.
pub mod Counted
pub mod Accepted
pub mod Perfect
use e2h.Prelude.{
  ℕ, suc, ◌+◌, ◌≤◌, ◌≡◌, Bool, true, false, not, ◌&&◌, ◌||◌, String, Option, none, some, List, [],
  ◌∷◌, ◌++◌, ◌==◌, text_eq, number_eq, Eq, length, leb, ltb, within, if◌then◌else◌,
}
use e2h.Result.{Result, ok, err, refuse, ◌>>=◌, ◌>>◌}
use e2h.Dict.{Dict, lookup, same_items}
use e2h.LongHorizon.{
  LongHorizonProbe, LongHorizonTask, LongHorizonCorpus, LongHorizonError, wrong_length,
  wrong_corpus, bad_counts, bad_score, key_missing, validated_corpus,
}
use e2h.LongHorizon.Replay.{expected_probe_states}
use e2h.LongHorizon.Scoring.{
  PublicLongHorizonCorpus, exported, LongHorizonPredictionDocument, LongHorizonTaskScore,
  LongHorizonEvaluationReport, Submitted, submission, collect_submitted, validated_predictions,
}

-- What the program takes from Python's floats: division and `math.isclose`.
pub record Quotients (S : Type 0) : Type 0 where
  pub quotient : ℕ → ℕ → S
  pub is_close : S → S → Bool
  pub in_unit : S → Bool
  pub is_close-quotient : (n d : ℕ) → is_close (quotient n d) (quotient n d) ≡ true
  pub in_unit-quotient : (n d : ℕ) → n ≤ d → 1 ≤ d → in_unit (quotient n d) ≡ true

-- The counters of the loop over the tasks and of the loop over one task's probes
pub record Sums : Type 0 where
  pub total : ℕ
  pub correct : ℕ
  pub task_submitted : ℕ
  pub task_correct : ℕ

abbrev pub counted : Bool → Sums → Sums
counted right sums = record {
  total = suc sums.total;
  correct = if right then suc sums.correct else sums.correct;
  task_submitted = suc sums.task_submitted;
  task_correct = if right then suc sums.task_correct else sums.task_correct;
}

-- One iteration of the loop over a task's probes
unfoldable pub score_probe :
    Dict (Dict String) → Submitted → String → Sums → LongHorizonProbe → Result LongHorizonError Sums
score_probe expected submitted task_id sums probe =
    elim (submission (record { task_id = task_id; probe_id = probe.id }) submitted) [
      | none ↦ ok (record sums { total = suc sums.total })
      | some candidate ↦ elim (lookup probe.id expected) [
        | none ↦ err key_missing
        | some wanted ↦ ok (counted (same_items candidate wanted) sums)
      ]
    ]

unfoldable pub score_probes :
    Dict (Dict String)
    → Submitted
    → String
    → Sums
    → List LongHorizonProbe
    → Result LongHorizonError Sums
unfolding score_probe
score_probes expected submitted task_id sums [] = ok sums
score_probes expected submitted task_id sums (probe ∷ probes) =
    score_probe expected submitted task_id sums probe >>= λ next.
    score_probes expected submitted task_id next probes

-- The totals and `task_scores`
pub record Scored (S : Type 0) : Type 0 where
  pub total : ℕ
  pub correct : ℕ
  pub task_scores : List (LongHorizonTaskScore S)

abbrev pub sum_by : {A : Type 0} → (A → ℕ) → List A → ℕ
sum_by f [] = 0
sum_by f (x ∷ xs) = f x + sum_by f xs

module _ {S : Type 0} (quotients : Quotients S) where
  -- `LongHorizonTaskScore(...)`
  unfoldable pub validated_task_score :
      LongHorizonTaskScore S → Result LongHorizonError (LongHorizonTaskScore S)
  validated_task_score s = do
    refuse (not (leb 1 s.total)) bad_counts
    refuse (not (quotients.in_unit s.score)) bad_score
    refuse (ltb s.total s.submitted || ltb s.submitted s.correct) bad_counts
    refuse (not (quotients.is_close s.score (quotients.quotient s.correct s.total))) bad_score
    ok s

  -- `LongHorizonEvaluationReport(...)`; its task scores are validated already.
  unfoldable pub validated_report :
      LongHorizonEvaluationReport S → Result LongHorizonError (LongHorizonEvaluationReport S)
  validated_report r = do
    refuse (not (leb 1 r.total)) bad_counts
    refuse (not (quotients.in_unit r.score)) bad_score
    refuse (not (within 1 1000 (length r.task_scores))) wrong_length
    refuse (ltb r.total r.submitted || ltb r.submitted r.correct) bad_counts
    refuse (not (quotients.is_close r.score (quotients.quotient r.correct r.total))) bad_score
    refuse (not (sum_by (λ s. s.total) r.task_scores == r.total)) bad_counts
    refuse (not (sum_by (λ s. s.submitted) r.task_scores == r.submitted)) bad_counts
    refuse (not (sum_by (λ s. s.correct) r.task_scores == r.correct)) bad_counts
    ok r

  -- One iteration of the loop over the tasks
  unfoldable pub score_task :
      Submitted → Scored S → LongHorizonTask → Result LongHorizonError (Scored S)
  score_task submitted scored task = do
    expected ← expected_probe_states task
    sums ←
        score_probes expected submitted task.id
          (record {
            total = scored.total;
            correct = scored.correct;
            task_submitted = 0;
            task_correct = 0;
          })
          task.probes
    task_score ← validated_task_score (record {
      task_id = task.id;
      total = length task.probes;
      submitted = sums.task_submitted;
      correct = sums.task_correct;
      score = quotients.quotient sums.task_correct (length task.probes);
    })
    ok (record {
      total = sums.total;
      correct = sums.correct;
      task_scores = scored.task_scores ++ (task_score ∷ []);
    })

  unfoldable pub score_tasks :
      Submitted → Scored S → List LongHorizonTask → Result LongHorizonError (Scored S)
  score_tasks submitted scored [] = ok scored
  score_tasks submitted scored (task ∷ tasks) =
      score_task submitted scored task >>= λ next. score_tasks submitted next tasks

  -- `evaluate_long_horizon_predictions`
  unfoldable pub evaluate_long_horizon_predictions :
      (PublicLongHorizonCorpus → String)
      → LongHorizonCorpus
      → LongHorizonPredictionDocument
      → Result LongHorizonError (LongHorizonEvaluationReport S)
  evaluate_long_horizon_predictions public_sha256 corpus predictions = do
    corpus' ← validated_corpus corpus
    predictions' ← validated_predictions predictions
    let expected_sha256 = public_sha256 (exported corpus')
    refuse (not (predictions'.public_corpus_sha256 == expected_sha256)) wrong_corpus
    submitted ← collect_submitted corpus'.tasks [] predictions'.predictions
    scored ←
        score_tasks submitted (record { total = 0; correct = 0; task_scores = [] }) corpus'.tasks
    validated_report (record {
      corpus_id = corpus'.id;
      public_corpus_sha256 = expected_sha256;
      total = scored.total;
      submitted = length submitted;
      correct = scored.correct;
      score = quotients.quotient scored.correct scored.total;
      task_scores = scored.task_scores;
    })
