-- ===== src/Tests/Workflows.antt =====
-- A stage that needs two others, and a ring of two stages.
use e2h.Prelude.{◌≡◌, refl, true, false, String, List, [], ◌∷◌, all, contains, text_eq}
use e2h.Result.{ok, err}
use e2h.Variants.Workflow.{
  cyclic, WorkflowStage, WorkflowVariant, dependencies, visit_each, visit, visit_all,
  validated_stage, validated_stages, validated_workflow,
}
use e2h.Variants.Workflow.Ends.{is_exhausted, validated_workflow-ends}
use e2h.Variants.Workflow.Topological.{IsOrdered, validated_workflow-IsOrdered}

abbrev stage : String → List String → WorkflowStage
stage id depends_on = record { id = id; depends_on = depends_on; uses = [] }

abbrev review : WorkflowVariant
review = record {
  id = "review";
  stages =
      stage "merge" ("draft" ∷ "check" ∷ []) ∷ stage "check" ("draft" ∷ []) ∷ stage "draft" [] ∷ [];
}

abbrev ring : WorkflowVariant
ring = record { id = "ring"; stages = stage "a" ("b" ∷ []) ∷ stage "b" ("a" ∷ []) ∷ [] }

ring_refused : validated_workflow ring ≡ err cyclic
unfolding validated_workflow validated_stages validated_stage visit_all visit_each visit
    dependencies
ring_refused = refl

review_holds : validated_workflow review ≡ ok review
unfolding validated_workflow validated_stages validated_stage visit_all visit_each visit
    dependencies
review_holds = refl

validated_workflow-ends_example : is_exhausted (validated_workflow ring) ≡ false
validated_workflow-ends_example = validated_workflow-ends ring

validated_workflow-IsOrdered_example :
    (order : List String) × IsOrdered review.stages order
    × (all (λ id. contains id order) ("merge" ∷ "check" ∷ "draft" ∷ []) ≡ true)
validated_workflow-IsOrdered_example = validated_workflow-IsOrdered review review review_holds
