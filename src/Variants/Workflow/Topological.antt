-- ===== src/Variants/Workflow/Topological.antt =====
-- An accepted workflow of src/e2h/variants.py can be run in order.
use e2h.Prelude.{
  ℕ, zero, suc, ◌≡◌, ◌∙◌, ap, sym, refl, subst, true, String, some, List, [], ◌∷◌, all, ==-refl,
  text_eq, contains, length, Bool-cases, Option-cases, inl, inr, arith,
}
use e2h.Result.{Result, ok, Result-cases}
use e2h.Variants.Workflow.{
  VariantError, WorkflowStage, WorkflowVariant, dependencies, Marks, entered, left, visit_each,
  visit, stage_ids, visit_all, validated_stages, validated_workflow,
}

-- Every stage of the list has its dependencies among those after it.
unfoldable pub IsOrdered : List WorkflowStage → List String → Type 0
IsOrdered stages [] = Unit
IsOrdered stages (id ∷ earlier) =
    (ids : List String) × (dependencies stages id ≡ some ids)
    × (all (λ d. contains d earlier) ids ≡ true)
    × IsOrdered stages earlier

-- What a visit leaves: an order that has all it had before, and `visiting` as before for the
-- stages that were not there.
record Visited (stages : List WorkflowStage) (before after : Marks) : Type 0 where
  pub order : IsOrdered stages after.visited
  pub keeps : (x : String) → contains x before.visited ≡ true → contains x after.visited ≡ true

all-kept :
    (a b ids : List String)
    → ((x : String) → contains x a ≡ true → contains x b ≡ true)
    → all (λ d. contains d a) ids ≡ true
    → all (λ d. contains d b) ids ≡ true
all-kept a b [] keep h = refl
all-kept a b (d ∷ ids) keep h = ground (arith, h, keep d, all-kept a b ids keep (ground (arith, h)))

-- A loop of visits that each leave an order with their stage leaves an order with all stages.
visit_each-Visited :
    (stages : List WorkflowStage) (f : Marks → String → Result VariantError Marks)
    → ((m m' : Marks) (id : String)
        → IsOrdered stages m.visited
        → f m id ≡ ok m'
        → Visited stages m m' × (contains id m'.visited ≡ true))
    → (m m' : Marks) (ids : List String) → IsOrdered stages m.visited
    → visit_each f m ids ≡ ok m'
    → Visited stages m m' × (all (λ d. contains d m'.visited) ids ≡ true)
unfolding visit_each
visit_each-Visited stages f one m m' [] order h =
    let same : m ≡ m' = ground (arith, h) in
    (
      record {
        order = subst (λ k. IsOrdered stages k.visited) same order;
        keeps = λ x found. ap (λ k. contains x k.visited) (sym same) ∙ found;
      },
      refl,
    )
visit_each-Visited stages f one m m' (id ∷ ids) order h = elim (Result-cases (f m id)) [
  | inr (problem, refused) ↦ absurd (ground (arith, h, refused))
  | inl (next, made) ↦
      let (first, here) = one m next id order made in
      let (rest, others) =
        visit_each-Visited stages f one next m' ids first.order (ground (arith, h, made)) in
      (
        record { order = rest.order; keeps = λ x found. rest.keeps x (first.keeps x found) },
        ground (arith, rest.keeps id here, others),
      )
]

visit-Visited :
    (stages : List WorkflowStage) (fuel : ℕ) (m m' : Marks) (id : String)
    → IsOrdered stages m.visited
    → visit stages fuel m id ≡ ok m'
    → Visited stages m m' × (contains id m'.visited ≡ true)
unfolding visit IsOrdered
visit-Visited stages zero m m' id order h = absurd (ground (arith, h))
visit-Visited stages (suc fuel) m m' id order h = elim (Bool-cases (contains id m.visited)) [
  | inl seen ↦
      let same : m ≡ m' = ground (arith, h, seen) in
      (
        record {
          order = subst (λ k. IsOrdered stages k.visited) same order;
          keeps = λ x found. ap (λ k. contains x k.visited) (sym same) ∙ found;
        },
        ap (λ k. contains id k.visited) (sym same) ∙ seen,
      )
  | inr unseen ↦ elim (Bool-cases (contains id m.visiting)) [
    | inl again ↦ absurd (ground (arith, h, unseen, again))
    | inr fresh ↦ elim (Option-cases (dependencies stages id)) [
      | inl missing ↦ absurd (ground (arith, h, unseen, fresh, missing))
      | inr (ids, found) ↦ elim (Result-cases (visit_each (visit stages fuel) (entered m id) ids)) [
        | inr (problem, refused) ↦ absurd (ground (arith, h, unseen, fresh, found, refused))
        | inl (next, made) ↦
            let same : left next id ≡ m' = ground (arith, h, unseen, fresh, found, made) in
            let (inner, known) =
              visit_each-Visited stages (visit stages fuel) (visit-Visited stages fuel)
                (entered m id) next ids order made in
            (
              record {
                order =
                    subst (λ k. IsOrdered stages k.visited) same (ids, found, known, inner.order);
                keeps = λ x before.
                    ap (λ k. contains x k.visited) (sym same)
                    ∙ ground (arith, inner.keeps x before);
              },
              ap (λ k. contains id k.visited) (sym same) ∙ ground (arith, ==-refl id),
            )
      ]
    ]
  ]
]

-- For a workflow that `workflow_must_be_a_dag` accepts there is an order of stages, the last one
-- first, that has every stage of the workflow and in which the dependencies of each stage come
-- before it.
pub validated_workflow-IsOrdered :
    (w w' : WorkflowVariant)
    → validated_workflow w ≡ ok w'
    → (order : List String) × IsOrdered w.stages order
      × (all (λ id. contains id order) (stage_ids w.stages) ≡ true)
unfolding validated_workflow visit_all IsOrdered
validated_workflow-IsOrdered w w' h = elim (Result-cases (validated_stages w.stages)) [
  | inr (problem, refused) ↦ absurd (ground (arith, h, refused))
  | inl (done, valid) ↦ elim (Result-cases (visit_all w.stages)) [
    | inr (problem, refused) ↦ absurd (ground (arith, h, valid, refused))
    | inl (marks, visited) ↦
        let (result, all_there) =
          visit_each-Visited w.stages (visit w.stages (suc (length w.stages)))
            (visit-Visited w.stages (suc (length w.stages)))
            (record { visiting = []; visited = [] }) marks (stage_ids w.stages) tt visited in
        (marks.visited, result.order, all_there)
  ]
]
