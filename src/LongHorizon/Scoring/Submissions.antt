-- ===== src/LongHorizon/Scoring/Submissions.antt =====
-- The table of submitted predictions: its pairs are distinct pairs of the corpus.
use e2h.Prelude.{
  ◌≡◌, ◌∙◌, ap, sym, refl, true, false, not, ◌||◌, String, List, [], ◌∷◌, map, all, ◌==◌, text_eq,
  contains, all_unique, all_unique-cons, Bool-cases, Option-cases, inl, inr, arith,
}
use e2h.Result.{ok}
use e2h.Dict.{Dict, sort_items}
use e2h.LongHorizon.{LongHorizonTask, is_none}
use e2h.LongHorizon.Scoring.{
  LongHorizonProbePrediction, Pair, pair_eq, pair_of, Submitted, submission, store, valid_pairs,
  task_by_id, collect_submitted,
}

abbrev pub pairs_in : Submitted → List Pair
pairs_in submitted = map (λ item. item.0) submitted

pub submission-contains :
    (pair : Pair) (submitted : Submitted)
    → is_none (submission pair submitted) ≡ not (contains pair (pairs_in submitted))
unfolding submission
submission-contains pair [] = refl
submission-contains pair ((other, constraints) ∷ submitted) =
    ground (arith, submission-contains pair submitted)

contains-store :
    (j pair : Pair) (constraints : Dict String) (submitted : Submitted)
    → contains j (pairs_in (store pair constraints submitted))
      ≡ ((pair == j) || contains j (pairs_in submitted))
unfolding store
contains-store j pair constraints [] = refl
contains-store j pair constraints ((other, old) ∷ submitted) = elim (Bool-cases (other == pair)) [
  | inl same ↦
      let equal = (pair_eq.equal_iff other pair).0 same in
      let tests : (other == j) ≡ (pair == j) = ap (λ p. p == j) equal in
      rw same (ground (arith, tests))
  | inr differ ↦ rw differ (ground (arith, contains-store j pair constraints submitted))
]

store_unique :
    (pair : Pair) (constraints : Dict String) (submitted : Submitted)
    → all_unique (pairs_in submitted) ≡ true
    → all_unique (pairs_in (store pair constraints submitted)) ≡ true
unfolding store
store_unique pair constraints [] h = refl
store_unique pair constraints ((other, old) ∷ submitted) h = elim (Bool-cases (other == pair)) [
  | inl same ↦ rw same h
  | inr differ ↦
      let stored = pairs_in (store pair constraints submitted) in
      let turned : (pair == other) ≡ false =
        ground (arith, differ, pair_eq.equal_iff other pair, pair_eq.equal_iff pair other) in
      rw differ (
        ground (
          arith,
          h,
          turned,
          all_unique-cons other (pairs_in submitted),
          all_unique-cons other stored,
          contains-store other pair constraints submitted,
          store_unique pair constraints submitted,
        ))
]

all-store :
    (pairs : List Pair) (pair : Pair) (constraints : Dict String) (submitted : Submitted)
    → contains pair pairs ≡ true
    → all (λ p. contains p pairs) (pairs_in submitted) ≡ true
    → all (λ p. contains p pairs) (pairs_in (store pair constraints submitted)) ≡ true
unfolding store
all-store pairs pair constraints [] known h = ground (arith, known)
all-store pairs pair constraints ((other, old) ∷ submitted) known h =
    elim (Bool-cases (other == pair)) [
      | inl same ↦ rw same h
      | inr differ ↦
          rw differ (
            ground (arith, h, all-store pairs pair constraints submitted known (ground (arith, h))))
    ]

-- The pairs in the table stay distinct pairs of the corpus.
pub collect_submitted-known :
    (tasks : List LongHorizonTask) (submitted result : Submitted)
    (predictions : List LongHorizonProbePrediction)
    → collect_submitted tasks submitted predictions ≡ ok result
    → all_unique (pairs_in submitted) ≡ true
    → all (λ p. contains p (valid_pairs tasks)) (pairs_in submitted) ≡ true
    → (all_unique (pairs_in result) ≡ true)
      × (all (λ p. contains p (valid_pairs tasks)) (pairs_in result) ≡ true)
unfolding collect_submitted
collect_submitted-known tasks submitted result [] h unique known =
    let same : submitted ≡ result = ground (arith, h) in
    (
      ap (λ s. all_unique (pairs_in s)) (sym same) ∙ unique,
      ap (λ s. all (λ p. contains p (valid_pairs tasks)) (pairs_in s)) (sym same) ∙ known,
    )
collect_submitted-known tasks submitted result (prediction ∷ predictions) h unique known =
    elim (Option-cases (task_by_id prediction.task_id tasks)) [
      | inl missing ↦ absurd (ground (arith, h, missing))
      | inr (task, found) ↦
          let pair = pair_of prediction in
          let constraints = sort_items prediction.active_constraints in
          collect_submitted-known tasks (store pair constraints submitted) result predictions
            (ground (arith, h, found)) (store_unique pair constraints submitted unique)
            (all-store (valid_pairs tasks) pair constraints submitted (ground (arith, h)) known)
    ]
