-- ===== src/Variants/Workflow.antt =====
-- Workflow stages and `workflow_must_be_a_dag` of src/e2h/variants.py. Handlers, timeouts, attempts
-- and metadata do not take part in the checks that are modelled.
pub mod Ends
pub mod Topological
use e2h.Prelude.{
  ℕ, zero, suc, Bool, true, false, not, ◌&&◌, ◌||◌, String, Option, none, some, List, [], ◌∷◌, map,
  any, all, keep, ◌==◌, text_eq, Eq, contains, all_unique, length, leb, within, if◌then◌else◌,
}
use e2h.Result.{Result, ok, err, refuse, ◌>>=◌, ◌>>◌}

-- What the validators refuse, a missing key, and the end of the fuel
pub data VariantError : Type 0 where
  wrong_length self_dependency repeated_dependency repeated_use repeated_stage : VariantError
  unknown_dependency cyclic missing_stage out_of_fuel : VariantError

pub record WorkflowStage : Type 0 where
  pub id : String
  pub depends_on : List String
  pub uses : List String

pub record WorkflowVariant : Type 0 where
  pub id : String
  pub stages : List WorkflowStage

-- `WorkflowStage(...)` with `stage_must_be_unambiguous`
unfoldable pub validated_stage : WorkflowStage → Result VariantError (Unit {0})
validated_stage stage = do
  refuse (not (leb (length stage.depends_on) 64)) wrong_length
  refuse (not (leb (length stage.uses) 4)) wrong_length
  refuse (contains stage.id stage.depends_on) self_dependency
  refuse (not (all_unique stage.depends_on)) repeated_dependency
  refuse (not (all_unique stage.uses)) repeated_use

unfoldable pub validated_stages : List WorkflowStage → Result VariantError (Unit {0})
unfolding validated_stage
validated_stages [] = ok tt
validated_stages (stage ∷ stages) = validated_stage stage >> validated_stages stages

-- `dependencies[stage_id]`: a later stage wins.
unfoldable pub dependencies : List WorkflowStage → String → Option (List String)
dependencies [] stage_id = none
dependencies (stage ∷ stages) stage_id = elim (dependencies stages stage_id) [
  | some later ↦ some later
  | none ↦ if stage.id == stage_id then some stage.depends_on else none
]

-- `visiting` and `visited`, the latter with the last visited stage first
pub record Marks : Type 0 where
  pub visiting : List String
  pub visited : List String

-- `visiting.remove(stage_id)`
abbrev pub without : String → List String → List String
without stage_id visiting = keep (λ id. not (id == stage_id)) visiting

-- `for dependency in ...: visit(dependency)`
unfoldable pub visit_each :
    (Marks → String → Result VariantError Marks) → Marks → List String → Result VariantError Marks
visit_each visit_one marks [] = ok marks
visit_each visit_one marks (stage_id ∷ ids) =
    visit_one marks stage_id >>= λ next. visit_each visit_one next ids

abbrev pub entered : Marks → String → Marks
entered marks stage_id = record marks { visiting = stage_id ∷ marks.visiting }

abbrev pub left : Marks → String → Marks
left marks stage_id = record {
  visiting = without stage_id marks.visiting;
  visited = stage_id ∷ marks.visited;
}

-- `visit`; the fuel bounds the depth of the calls.
unfoldable pub visit : List WorkflowStage → ℕ → Marks → String → Result VariantError Marks
visit stages zero marks stage_id = err out_of_fuel
visit stages (suc fuel) marks stage_id = elim (contains stage_id marks.visited) [
  | true ↦ ok marks
  | false ↦ elim (contains stage_id marks.visiting) [
    | true ↦ err cyclic
    | false ↦ elim (dependencies stages stage_id) [
      | none ↦ err missing_stage
      | some ids ↦ visit_each (visit stages fuel) (entered marks stage_id) ids >>= λ next.
          ok (left next stage_id)
    ]
  ]
]

abbrev pub stage_ids : List WorkflowStage → List String
stage_ids stages = map (λ stage. stage.id) stages

-- The visits of all stages, with fuel for every depth that distinct stages allow
unfoldable pub visit_all : List WorkflowStage → Result VariantError Marks
unfolding visit visit_each
visit_all stages =
    visit_each (visit stages (suc (length stages))) (record { visiting = []; visited = [] })
      (stage_ids stages)

-- `WorkflowVariant(...)` with `workflow_must_be_a_dag`
unfoldable pub validated_workflow : WorkflowVariant → Result VariantError WorkflowVariant
unfolding visit_all validated_stages
validated_workflow workflow = do
  refuse (not (within 1 256 (length workflow.stages))) wrong_length
  validated_stages workflow.stages
  let ids = stage_ids workflow.stages
  refuse (not (all_unique ids)) repeated_stage
  refuse (any (λ stage. any (λ id. not (contains id ids)) stage.depends_on) workflow.stages)
      unknown_dependency
  marks ← visit_all workflow.stages
  ok workflow
