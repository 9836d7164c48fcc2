-- ===== src/LongHorizon/Scoring/Pairs.antt =====
-- The pairs of a task's and a probe's id that a corpus has: no pair occurs twice.
use e2h.Prelude.{
  ◌≡◌, ◌∙◌, ap, sym, refl, true, String, List, [], ◌∷◌, map, ◌==◌, text_eq, contains,
  contains-append, all_unique, all_unique-cons, all_unique-append, Bool-cases, inl, inr, arith,
}
use e2h.Result.{ok, Result-cases}
use e2h.LongHorizon.{LongHorizonProbe, LongHorizonTask, each, validated_task}
use e2h.LongHorizon.Replay.Facts.{task-Facts}
use e2h.LongHorizon.Scoring.{Pair, pair_eq, pairs_of, valid_pairs}

abbrev pub probe_pair : String → LongHorizonProbe → Pair
probe_pair task_id probe = record { task_id = task_id; probe_id = probe.id }

pairs-task :
    (pair : Pair) (task_id : String) (probes : List LongHorizonProbe)
    → contains pair (map (probe_pair task_id) probes) ≡ true
    → (pair.task_id ≡ task_id) × (contains pair.probe_id (map (λ p. p.id) probes) ≡ true)
pairs-task pair task_id [] h = absurd (ground (arith, h))
pairs-task pair task_id (p ∷ probes) h = elim (Bool-cases (probe_pair task_id p == pair)) [
  | inl same ↦ (ground (arith, same, text_eq.equal_iff task_id pair.task_id), ground (arith, same))
  | inr differ ↦
      let (task, known) = pairs-task pair task_id probes (ground (arith, h, differ)) in
      (task, ground (arith, known))
]

pairs_unique :
    (task_id : String) (probes : List LongHorizonProbe)
    → all_unique (map (λ p. p.id) probes) ≡ true
    → all_unique (map (probe_pair task_id) probes) ≡ true
pairs_unique task_id [] h = refl
pairs_unique task_id (p ∷ probes) h =
    let cons = all_unique-cons p.id (map (λ q. q.id) probes) in
    elim (Bool-cases (contains (probe_pair task_id p) (map (probe_pair task_id) probes))) [
      | inl found ↦
          absurd
            (ground (arith, h, cons, (pairs-task (probe_pair task_id p) task_id probes found).1))
      | inr fresh ↦ ground (
        arith,
        h,
        cons,
        fresh,
        all_unique-cons (probe_pair task_id p) (map (probe_pair task_id) probes),
        pairs_unique task_id probes,
      )
    ]

valid_pairs-task :
    (pair : Pair) (tasks : List LongHorizonTask)
    → contains pair (valid_pairs tasks) ≡ true
    → contains pair.task_id (map (λ t. t.id) tasks) ≡ true
valid_pairs-task pair [] h = h
valid_pairs-task pair (task ∷ tasks) h = elim (Bool-cases (contains pair (pairs_of task))) [
  | inl here ↦
      let same = (pairs-task pair task.id task.probes here).0 in
      ground (arith, text_eq.equal_iff task.id pair.task_id, same)
  | inr later ↦ ground (
    arith,
    h,
    later,
    contains-append pair (pairs_of task) (valid_pairs tasks),
    valid_pairs-task pair tasks,
  )
]

pub valid_pairs_unique :
    (tasks : List LongHorizonTask)
    → each validated_task tasks ≡ ok tt
    → all_unique (map (λ t. t.id) tasks) ≡ true
    → all_unique (valid_pairs tasks) ≡ true
valid_pairs_unique [] h unique = refl
valid_pairs_unique (task ∷ tasks) h unique = elim (Result-cases (validated_task task)) [
  | inr (problem, refused) ↦ absurd (ground (arith, h, refused))
  | inl (done, valid) ↦
      let facts = task-Facts task (ground (arith, valid)) in
      let cons = all_unique-cons task.id (map (λ t. t.id) tasks) in
      all_unique-append (pairs_of task) (valid_pairs tasks)
        (pairs_unique task.id task.probes facts.distinct_probes)
        (valid_pairs_unique tasks (ground (arith, h, valid)) (ground (arith, unique, cons)))
        (λ pair here.
          let same = (pairs-task pair task.id task.probes here).0 in
          elim (Bool-cases (contains pair (valid_pairs tasks))) [
            | inr absent ↦ absent
            | inl present ↦
                let found = valid_pairs-task pair tasks present in
                let again : contains task.id (map (λ t. t.id) tasks) ≡ true =
                  ap (λ id. contains id (map (λ t. t.id) tasks)) (sym same) ∙ found in
                absurd (ground (arith, again, unique, cons))
          ])
]
