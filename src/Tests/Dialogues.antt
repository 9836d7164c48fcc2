-- ===== src/Tests/Dialogues.antt =====
-- A dialogue that sets a constraint, changes it and revokes it, with a probe after each change.
use e2h.Prelude.{
  ℕ, Bool-cases, subst, sym, ◌==◌, text_eq, ◌*◌, ◌/◌, ◌≡◌, refl, true, String, none, some, List, [],
  ◌∷◌, number_eq, eqb, inl, inr, arith, ==-refl,
}
use e2h.Result.{ok}
use e2h.Dict.{Dict, lookup, put, remove, insert_sorted, sort_items}
use e2h.Dict.Lookup.{IsDict}
use e2h.LongHorizon.{
  LongHorizonRole, ConstraintAction, ConstraintUpdate, LongHorizonTurn, LongHorizonProbe,
  LongHorizonTask, LongHorizonCorpus, validated_update, transition, scan_update, scan_updates,
  scan_turns, scan_probes, validated_task, validated_corpus,
}
use e2h.LongHorizon.Supersedes.{AllFollow, validated_task-AllFollow}
use e2h.LongHorizon.Replay.{expected_probe_states}
use e2h.LongHorizon.Replay.Last.{last_update, last_value}
use e2h.LongHorizon.Replay.Probes.{Among}
use e2h.LongHorizon.Replay.Expected.{history, expected_probe_states-last}
use e2h.LongHorizon.Scoring.{
  PublicLongHorizonCorpus, LongHorizonProbePrediction, LongHorizonPredictionDocument,
  LongHorizonEvaluationReport, Submitted, submission, store, task_by_id, collect_submitted,
  validated_prediction, validated_predictions,
}
use e2h.LongHorizon.Evaluation.{Quotients, sum_by, evaluate_long_horizon_predictions}
use e2h.LongHorizon.Evaluation.Accepted.{evaluate_long_horizon_predictions-accepted}
use e2h.LongHorizon.Evaluation.Perfect.{
  TellsTruth, AllTellTruth, evaluate_long_horizon_predictions-perfect,
}

abbrev pub in_thousandths : Quotients ℕ
in_thousandths = record {
  quotient = λ n d. n * 1000 / d;
  is_close = eqb;
  in_unit = λ s. true;
  is_close-quotient = λ n d. ==-refl (n * 1000 / d);
  in_unit-quotient = λ n d small positive. refl;
}

abbrev set_red : ConstraintUpdate
set_red = record {
  id = "u1";
  key = "color";
  action = ConstraintAction.set;
  value = some "red";
  supersedes = none;
}

abbrev set_blue : ConstraintUpdate
set_blue = record set_red { id = "u2"; value = some "blue"; supersedes = some "u1" }

abbrev revoke_blue : ConstraintUpdate
revoke_blue = record {
  id = "u3";
  key = "color";
  action = ConstraintAction.revoke;
  value = none;
  supersedes = some "u2";
}

abbrev turn : String → List ConstraintUpdate → LongHorizonTurn
turn id updates = record {
  id = id;
  role = LongHorizonRole.user;
  content = "text";
  updates = updates;
}

abbrev probe : String → String → LongHorizonProbe
probe id after = record { id = id; after_turn_id = after; prompt = "Report." }

abbrev colors : LongHorizonTask
colors = record {
  id = "colors";
  title = "Colors";
  constraint_keys = "color" ∷ [];
  turns = turn "t1" (set_red ∷ []) ∷ turn "t2" (set_blue ∷ []) ∷ turn "t3" (revoke_blue ∷ []) ∷ [];
  probes = probe "p1" "t2" ∷ probe "p2" "t3" ∷ [];
}

abbrev corpus : LongHorizonCorpus
corpus = record { id = "corpus"; title = "One task"; tasks = colors ∷ [] }

abbrev predicted : String → Dict String → LongHorizonProbePrediction
predicted probe_id constraints = record {
  task_id = "colors";
  probe_id = probe_id;
  active_constraints = constraints;
}

abbrev document : LongHorizonPredictionDocument
document = record {
  public_corpus_sha256 = "corpus";
  predictions = predicted "p1" (("color", "blue") ∷ []) ∷ predicted "p2" [] ∷ [];
}

abbrev id_of : PublicLongHorizonCorpus → String
id_of public = public.id

abbrev table : Submitted
table =
    (record { task_id = "colors"; probe_id = "p1" }, ("color", "blue") ∷ [])
    ∷ (record { task_id = "colors"; probe_id = "p2" }, [])
    ∷ []

colors_holds : validated_task colors ≡ ok tt
unfolding validated_task validated_update scan_turns scan_updates scan_update transition scan_probes
    lookup put remove
colors_holds = refl

corpus_holds : validated_corpus corpus ≡ ok corpus
unfolding validated_corpus validated_task validated_update scan_turns scan_updates scan_update
    transition scan_probes lookup put remove
corpus_holds = refl

document_holds : validated_predictions document ≡ ok document
unfolding validated_predictions validated_prediction
document_holds = refl

table_collected : collect_submitted (colors ∷ []) [] document.predictions ≡ ok table
unfolding collect_submitted task_by_id store sort_items insert_sorted
table_collected = refl

abbrev ToldAt : LongHorizonProbe → Type 0
ToldAt p =
    (c : Dict String) × (submission (record { task_id = "colors"; probe_id = p.id }) table ≡ some c)
    × IsDict c
    × ((k : String) → lookup k c ≡ last_value k none (history p.after_turn_id colors.turns))

told_blue : ToldAt (probe "p1" "t2")
unfolding submission history last_update lookup
told_blue = (
  ("color", "blue") ∷ [],
  refl,
  (refl, tt),
  λ k. elim (Bool-cases ("color" == k)) [
    | inl same ↦ ground (arith, same)
    | inr other ↦ ground (arith, other)
  ],
)

told_nothing : ToldAt (probe "p2" "t3")
unfolding submission history last_update lookup
told_nothing = (
  [],
  refl,
  tt,
  λ k. elim (Bool-cases ("color" == k)) [
    | inl same ↦ ground (arith, same)
    | inr other ↦ ground (arith, other)
  ],
)

tells : TellsTruth table colors
tells p (inl same) = subst ToldAt (sym same) told_blue
tells p (inr (inl same)) = subst ToldAt (sym same) told_nothing
tells p (inr (inr none_left)) = absurd none_left

table_tells : AllTellTruth table (colors ∷ [])
table_tells = (tells, tt)

validated_task-AllFollow_example :
    AllFollow ("color" ∷ []) [] (set_red ∷ set_blue ∷ revoke_blue ∷ [])
validated_task-AllFollow_example = validated_task-AllFollow colors colors_holds

expected_probe_states-last_example :
    (expected : Dict (Dict String)) × (expected_probe_states colors ≡ ok expected)
    × ((p : LongHorizonProbe)
        → Among p (probe "p1" "t2" ∷ probe "p2" "t3" ∷ [])
        → (s : Dict String) × (lookup p.id expected ≡ some s)
          × IsDict s
          × ((k : String) → lookup k s ≡ last_value k none (history p.after_turn_id colors.turns)))
expected_probe_states-last_example = expected_probe_states-last colors colors_holds

evaluate_long_horizon_predictions-accepted_example :
    (report : LongHorizonEvaluationReport ℕ) × (evaluate_long_horizon_predictions in_thousandths
        id_of corpus document
      ≡ ok report)
    × (report.total ≡ 2)
    × (report.submitted ≡ 2)
    × (sum_by (λ s. s.submitted) report.task_scores ≡ 2)
    × (report.score ≡ in_thousandths.quotient report.correct report.total)
evaluate_long_horizon_predictions-accepted_example =
    evaluate_long_horizon_predictions-accepted in_thousandths id_of corpus document table
      corpus_holds document_holds refl table_collected

evaluate_long_horizon_predictions-perfect_example :
    (report : LongHorizonEvaluationReport ℕ) × (evaluate_long_horizon_predictions in_thousandths
        id_of corpus document
      ≡ ok report)
    × (report.correct ≡ report.total)
    × (report.total ≡ 2)
evaluate_long_horizon_predictions-perfect_example =
    evaluate_long_horizon_predictions-perfect in_thousandths id_of corpus document table
      corpus_holds document_holds refl table_collected table_tells
