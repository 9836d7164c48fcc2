-- ===== src/LongHorizon/Evaluation/Counted.antt =====
-- How the loops of `evaluate_long_horizon_predictions` in src/e2h/long_horizon.py count.
use e2h.Prelude.{
  ℕ, suc, ◌+◌, ◌≤◌, ◌≡◌, ◌∙◌, ap, refl, true, false, not, String, none, some, List, [], ◌∷◌, ◌++◌,
  map, all, text_eq, number_eq, contains, count_if, count_if-le-length, length, length-map,
  length-append, Option-cases, inl, inr, arith, if◌then◌else◌,
}
use e2h.Result.{ok}
use e2h.Dict.{Dict, lookup, same_items}
use e2h.LongHorizon.{LongHorizonProbe, LongHorizonTask, is_none, validated_task}
use e2h.LongHorizon.Replay.Facts.{task-Facts}
use e2h.LongHorizon.Replay.Probes.{Among}
use e2h.LongHorizon.Replay.Expected.{expected_probe_states-last}
use e2h.LongHorizon.Scoring.{LongHorizonTaskScore, Pair, pair_eq, Submitted, submission, pairs_of}
use e2h.LongHorizon.Scoring.Pairs.{probe_pair}
use e2h.LongHorizon.Scoring.Submissions.{pairs_in, submission-contains}
use e2h.LongHorizon.Evaluation.{
  Quotients, Sums, counted, score_probe, score_probes, Scored, sum_by, validated_task_score,
  score_task,
}

-- The probes of a list whose predictions were submitted
abbrev pub present : Submitted → List Pair → ℕ
present submitted pairs = count_if (λ p. contains p (pairs_in submitted)) pairs

module _ (expected : Dict (Dict String)) (submitted : Submitted) (task_id : String) (sums : Sums)
    (p : LongHorizonProbe) where
  score_probe-missing :
      submission (probe_pair task_id p) submitted ≡ none
      → score_probe expected submitted task_id sums p ≡ ok (record sums { total = suc sums.total })
  unfolding score_probe
  score_probe-missing h = ground (arith, h)

  pub score_probe-given :
      (candidate wanted : Dict String)
      → submission (probe_pair task_id p) submitted ≡ some candidate
      → lookup p.id expected ≡ some wanted
      → score_probe expected submitted task_id sums p
        ≡ ok (counted (same_items candidate wanted) sums)
  unfolding score_probe
  score_probe-given candidate wanted h k = ground (arith, h, k)

  pub score_probes-cons :
      (probes : List LongHorizonProbe) (middle last : Sums)
      → score_probe expected submitted task_id sums p ≡ ok middle
      → score_probes expected submitted task_id middle probes ≡ ok last
      → score_probes expected submitted task_id sums (p ∷ probes) ≡ ok last
  unfolding score_probes
  score_probes-cons probes middle last h k = ground (arith, h, k)

-- The loop over a task's probes ends, having counted each probe, and as submitted those whose pair
-- is in the table; what it counts as correct it counts for the task and for the corpus.
score_probes-counted :
    (expected : Dict (Dict String)) (submitted : Submitted) (task_id : String) (sums : Sums)
    (probes : List LongHorizonProbe)
    → all (λ p. not (is_none (lookup p.id expected))) probes ≡ true
    → (next : Sums) × (score_probes expected submitted task_id sums probes ≡ ok next)
      × (next.total ≡ length probes + sums.total)
      × (next.task_submitted
          ≡ present submitted (map (probe_pair task_id) probes) + sums.task_submitted)
      × ((right : ℕ) × (right ≤ present submitted (map (probe_pair task_id) probes))
          × (next.correct ≡ right + sums.correct)
          × (next.task_correct ≡ right + sums.task_correct))
unfolding score_probes
score_probes-counted expected submitted task_id sums [] found =
    (sums, refl, omega arith, omega arith, (0, omega arith, omega arith, omega arith))
score_probes-counted expected submitted task_id sums (p ∷ probes) found =
    let here = submission-contains (probe_pair task_id p) submitted in
    elim (Option-cases (submission (probe_pair task_id p) submitted)) [
      | inl missing ↦
          let skipped : Sums = record sums { total = suc sums.total } in
          let (next, scored, total, count, (right, small, correct, task_correct)) =
            score_probes-counted expected submitted task_id skipped probes
              (ground (arith, found)) in
          let absent : contains (probe_pair task_id p) (pairs_in submitted) ≡ false =
            ground (arith, here, missing) in
          (
            next,
            score_probes-cons expected submitted task_id sums p probes skipped next
                (score_probe-missing expected submitted task_id sums p missing) scored,
            ground (arith, total),
            ground (arith, count, absent),
            (right, ground (arith, small, absent), correct, task_correct),
          )
      | inr (candidate, given) ↦ elim (Option-cases (lookup p.id expected)) [
        | inl unknown ↦ absurd (ground (arith, found, unknown))
        | inr (wanted, known) ↦
            let hit = same_items candidate wanted in
            let (next, scored, total, count, (right, small, correct, task_correct)) =
              score_probes-counted expected submitted task_id (counted hit sums) probes
                (ground (arith, found)) in
            let in_table : contains (probe_pair task_id p) (pairs_in submitted) ≡ true =
              ground (arith, here, given) in
            (
              next,
              score_probes-cons expected submitted task_id sums p probes (counted hit sums) next
                  (score_probe-given expected submitted task_id sums p candidate wanted given known)
                  scored,
              ground (arith, total),
              ground (arith, count, in_table),
              (
                (if hit then 1 else 0) + right,
                ground (arith, small, in_table),
                ground (arith, correct),
                ground (arith, task_correct),
              ),
            )
      ]
    ]

pub sum_by-append :
    {A : Type 0} (f : A → ℕ) (xs ys : List A) → sum_by f (xs ++ ys) ≡ sum_by f xs + sum_by f ys
sum_by-append f [] ys = omega arith
sum_by-append f (x ∷ xs) ys = omega (arith, sum_by-append f xs ys)

all-found :
    (expected : Dict (Dict String)) (probes : List LongHorizonProbe)
    → ((p : LongHorizonProbe)
        → Among p probes
        → (s : Dict String) × (lookup p.id expected ≡ some s))
    → all (λ p. not (is_none (lookup p.id expected))) probes ≡ true
all-found expected [] f = refl
all-found expected (p ∷ probes) f =
    let (s, found) = f p (inl refl) in
    ground (arith, found, all-found expected probes (λ q among. f q (inr among)))

-- What has been added to the totals since `before`, for these pairs.
pub record Added {S : Type 0} (submitted : Submitted) (pairs : List Pair) (before after : Scored S)
    : Type 0 where
  pub right : ℕ
  pub right_small : right ≤ present submitted pairs
  pub total_added : after.total ≡ length pairs + before.total
  pub totals_added :
      sum_by (λ s. s.total) after.task_scores
      ≡ length pairs + sum_by (λ s. s.total) before.task_scores
  pub submitted_added :
      sum_by (λ s. s.submitted) after.task_scores
      ≡ present submitted pairs + sum_by (λ s. s.submitted) before.task_scores
  pub correct_added : after.correct ≡ right + before.correct
  pub corrects_added :
      sum_by (λ s. s.correct) after.task_scores ≡ right + sum_by (λ s. s.correct) before.task_scores

module _ {S : Type 0} (quotients : Quotients S) where
  task_score-accepted :
      (s : LongHorizonTaskScore S)
      → 1 ≤ s.total
      → s.submitted ≤ s.total
      → s.correct ≤ s.submitted
      → s.score ≡ quotients.quotient s.correct s.total
      → validated_task_score quotients s ≡ ok s
  unfolding validated_task_score
  task_score-accepted s some_total low high score =
      let unit : quotients.in_unit s.score ≡ true =
        ap quotients.in_unit score
        ∙ quotients.in_unit-quotient s.correct s.total (omega (arith, low, high)) some_total in
      let close : quotients.is_close s.score (quotients.quotient s.correct s.total) ≡ true =
        ap (λ q. quotients.is_close q (quotients.quotient s.correct s.total)) score
        ∙ quotients.is_close-quotient s.correct s.total in
      ground (arith, some_total, low, high, unit, close)

  pub score_task-Added :
      (submitted : Submitted) (scored : Scored S) (task : LongHorizonTask)
      → validated_task task ≡ ok tt
      → (next : Scored S) × (score_task quotients submitted scored task ≡ ok next)
        × (length next.task_scores ≡ suc (length scored.task_scores))
        × Added submitted (pairs_of task) scored next
  unfolding score_task
  score_task-Added submitted scored task valid =
      let facts = task-Facts task valid in
      let (expected, made, at) = expected_probe_states-last task valid in
      let start : Sums = record {
        total = scored.total;
        correct = scored.correct;
        task_submitted = 0;
        task_correct = 0;
      } in
      let (sums, done, total, count, (right, small, correct, task_correct)) =
        score_probes-counted expected submitted task.id start task.probes
          (all-found expected task.probes (λ p among. ((at p among).0, (at p among).1))) in
      let size = length-map (probe_pair task.id) task.probes in
      let few = count_if-le-length (λ p. contains p (pairs_in submitted)) (pairs_of task) in
      let score : LongHorizonTaskScore S = record {
        task_id = task.id;
        total = length task.probes;
        submitted = sums.task_submitted;
        correct = sums.task_correct;
        score = quotients.quotient sums.task_correct (length task.probes);
      } in
      let accepted =
        task_score-accepted score facts.some_probe (omega (arith, few, size, count))
          (omega (arith, small, count, task_correct)) refl in
      let next : Scored S = record {
        total = sums.total;
        correct = sums.correct;
        task_scores = scored.task_scores ++ (score ∷ []);
      } in
      (
        next,
        rw (made, done, accepted) refl,
        omega (arith, length-append scored.task_scores (score ∷ [])),
        record {
          right = right;
          right_small = small;
          total_added = omega (arith, total, size);
          totals_added =
              omega (arith, sum_by-append (λ s. s.total) scored.task_scores (score ∷ []), size);
          submitted_added =
              omega
                (arith, sum_by-append (λ s. s.submitted) scored.task_scores (score ∷ []), count);
          correct_added = correct;
          corrects_added =
              omega (
                arith,
                sum_by-append (λ s. s.correct) scored.task_scores (score ∷ []),
                task_correct,
              );
        },
      )
