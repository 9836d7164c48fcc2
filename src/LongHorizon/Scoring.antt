-- ===== src/LongHorizon/Scoring.antt =====
-- Predictions, reports and `evaluate_long_horizon_predictions` of src/e2h/long_horizon.py. S is the
-- type of scores; the digest of the public export is a parameter.
pub mod Submissions
pub mod Pairs
use e2h.Prelude.{
  ℕ, suc, zero, ◌+◌, ◌≤◌, ◌≡◌, ◌↔◌, ap, arith, Bool, true, false, not, ◌&&◌, ◌||◌, String, Option,
  none, some, List, [], ◌∷◌, ◌++◌, map, any, ◌==◌, text_eq, number_eq, Eq, contains, all_unique,
  length, leb, within, codes, if◌then◌else◌,
}
use e2h.Result.{Result, ok, err, refuse, ◌>>=◌, ◌>>◌}
use e2h.Dict.{Dict, lookup, sort_items, same_items}
use e2h.LongHorizon.{
  LongHorizonRole, LongHorizonProbe, LongHorizonTask, LongHorizonCorpus, LongHorizonError,
  wrong_length, repeated_pair, wrong_corpus, unknown_pair, undeclared_key, bad_counts, bad_score,
  key_missing, bad_value, each, validated_corpus,
}
use e2h.LongHorizon.Replay.{expected_probe_states}

pub record PublicLongHorizonTurn : Type 0 where
  pub id : String
  pub role : LongHorizonRole
  pub content : String

pub record PublicLongHorizonTask : Type 0 where
  pub id : String
  pub title : String
  pub constraint_keys : List String
  pub turns : List PublicLongHorizonTurn
  pub probes : List LongHorizonProbe

pub record PublicLongHorizonCorpus : Type 0 where
  pub id : String
  pub title : String
  pub tasks : List PublicLongHorizonTask

-- The construction in `export_public_long_horizon_corpus`, for a validated corpus
abbrev pub exported : LongHorizonCorpus → PublicLongHorizonCorpus
exported corpus = record {
  id = corpus.id;
  title = corpus.title;
  tasks =
      map
        (λ task. record {
          id = task.id;
          title = task.title;
          constraint_keys = task.constraint_keys;
          turns =
              map (λ turn. record { id = turn.id; role = turn.role; content = turn.content })
                task.turns;
          probes = task.probes;
        })
        corpus.tasks;
}

pub record LongHorizonProbePrediction : Type 0 where
  pub task_id : String
  pub probe_id : String
  pub active_constraints : Dict String

pub record LongHorizonPredictionDocument : Type 0 where
  pub public_corpus_sha256 : String
  pub predictions : List LongHorizonProbePrediction

pub record LongHorizonTaskScore (S : Type 0) : Type 0 where
  pub task_id : String
  pub total : ℕ
  pub submitted : ℕ
  pub correct : ℕ
  pub score : S

pub record LongHorizonEvaluationReport (S : Type 0) : Type 0 where
  pub corpus_id : String
  pub public_corpus_sha256 : String
  pub total : ℕ
  pub submitted : ℕ
  pub correct : ℕ
  pub score : S
  pub task_scores : List (LongHorizonTaskScore S)

-- The task's and the probe's id, which are compared as a pair.
pub record Pair : Type 0 where
  pub task_id : String
  pub probe_id : String

abbrev pub same_pair : Pair → Pair → Bool
same_pair a b = a.task_id == b.task_id && a.probe_id == b.probe_id

pub same_pair_iff : (a b : Pair) → (same_pair a b ≡ true) ↔ (a ≡ b)
same_pair_iff a b = (
  λ h.
      ground
        (arith, h, text_eq.equal_iff a.task_id b.task_id, text_eq.equal_iff a.probe_id b.probe_id),
  λ h. ground (
    arith,
    ap (λ p. p.task_id) h,
    ap (λ p. p.probe_id) h,
    text_eq.equal_iff a.task_id b.task_id,
    text_eq.equal_iff a.probe_id b.probe_id,
  ),
)

instance abbrev pub pair_eq : Eq Pair
pair_eq = record { equal = same_pair; equal_iff = same_pair_iff }

-- `LongHorizonProbePrediction(...)`; the keys' pattern is not validated.
unfoldable pub validated_prediction :
    LongHorizonProbePrediction → Result LongHorizonError (Unit {0})
validated_prediction prediction =
    refuse (not (leb (length prediction.active_constraints) 128)) wrong_length
    >> refuse
        (any (λ item. not (within 1 1000 (length (codes item.1)))) prediction.active_constraints)
        bad_value

abbrev pub pair_of : LongHorizonProbePrediction → Pair
pair_of prediction = record { task_id = prediction.task_id; probe_id = prediction.probe_id }

-- `LongHorizonPredictionDocument(...)`
unfoldable pub validated_predictions :
    LongHorizonPredictionDocument → Result LongHorizonError LongHorizonPredictionDocument
validated_predictions document = do
  refuse (not (leb (length document.predictions) 100000)) wrong_length
  each validated_prediction document.predictions
  refuse (not (all_unique (map pair_of document.predictions))) repeated_pair
  ok document

-- `submitted`: each pair's constraints
abbrev pub Submitted : Type 0
Submitted = List (Pair × Dict String)

unfoldable pub submission : Pair → Submitted → Option (Dict String)
submission pair [] = none
submission pair ((other, constraints) ∷ submitted) =
    if other == pair then some constraints else submission pair submitted

-- `submitted[pair] = constraints`
unfoldable pub store : Pair → Dict String → Submitted → Submitted
store pair constraints [] = (pair, constraints) ∷ []
store pair constraints ((other, old) ∷ submitted) =
    let rest = store pair constraints submitted in
    if other == pair then (other, constraints) ∷ submitted else (other, old) ∷ rest

-- `{(task.id, probe.id) for task in corpus.tasks for probe in task.probes}`
abbrev pub pairs_of : LongHorizonTask → List Pair
pairs_of task = map (λ probe. record { task_id = task.id; probe_id = probe.id }) task.probes

abbrev pub valid_pairs : List LongHorizonTask → List Pair
valid_pairs [] = []
valid_pairs (task ∷ tasks) = pairs_of task ++ valid_pairs tasks

-- `{task.id: task for task in corpus.tasks}`, looked up: a later task wins.
unfoldable pub task_by_id : String → List LongHorizonTask → Option LongHorizonTask
task_by_id id [] = none
task_by_id id (task ∷ tasks) = elim (task_by_id id tasks) [
  | some later ↦ some later
  | none ↦ if task.id == id then some task else none
]

-- The loop over the predictions
unfoldable pub collect_submitted :
    List LongHorizonTask
    → Submitted
    → List LongHorizonProbePrediction
    → Result LongHorizonError Submitted
collect_submitted tasks submitted [] = ok submitted
collect_submitted tasks submitted (prediction ∷ predictions) =
    refuse (not (contains (pair_of prediction) (valid_pairs tasks))) unknown_pair
    >> elim (task_by_id prediction.task_id tasks) [
      | none ↦ err key_missing
      | some task ↦
          refuse
            (any (λ item. not (contains item.0 task.constraint_keys)) prediction.active_constraints)
            undeclared_key
          >> collect_submitted tasks
              (store (pair_of prediction) (sort_items prediction.active_constraints) submitted)
              predictions
    ]
