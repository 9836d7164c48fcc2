-- ===== src/Variants/Workflow/Ends.antt =====
-- The visits of `workflow_must_be_a_dag` in src/e2h/variants.py end: stages that are being visited
-- differ, so that their number bounds the depth of the calls.
use e2h.Prelude.{
  ℕ, zero, suc, ◌+◌, ◌≤◌, ◌<◌, ◌≡◌, ◌∙◌, ap, sym, refl, subst, Bool, true, false, not, String, some,
  List, [], ◌∷◌, any, none_fail-all, all, keep, count_if-contains, count_if-le-length, ==-refl,
  text_eq, contains, all_unique, all_unique-cons, length, length-map, Bool-cases, Option-cases, inl,
  inr, arith,
}
use e2h.Result.{Result, ok, err, Result-cases}
use e2h.Variants.Workflow.{
  VariantError, out_of_fuel, WorkflowStage, WorkflowVariant, dependencies, Marks, without, entered,
  left, visit_each, visit, stage_ids, visit_all, validated_stage, validated_stages,
  validated_workflow,
}

abbrev pub is_exhausted : {A : Type 0} → Result VariantError A → Bool
is_exhausted (err out_of_fuel) = true
is_exhausted _ = false

without-fresh : (id : String) (ids : List String) → contains id ids ≡ false → without id ids ≡ ids
without-fresh id [] h = refl
without-fresh id (x ∷ ids) h = ground (arith, h, without-fresh id ids (ground (arith, h)))

dependencies-known :
    (ids : List String) (stages : List WorkflowStage) (id : String) (ds : List String)
    → any (λ stage. any (λ i. not (contains i ids)) stage.depends_on) stages ≡ false
    → dependencies stages id ≡ some ds
    → all (λ i. contains i ids) ds ≡ true
unfolding dependencies
dependencies-known ids [] id ds known h = absurd (ground (arith, h))
dependencies-known ids (stage ∷ stages) id ds known h =
    elim (Option-cases (dependencies stages id)) [
      | inr (later, found) ↦
          dependencies-known ids stages id ds (ground (arith, known)) (ground (arith, h, found))
      | inl none_later ↦
          let same : stage.depends_on ≡ ds = ground (arith, h, none_later) in
          ap (all (λ i. contains i ids)) (sym same)
          ∙ none_fail-all (λ i. contains i ids) stage.depends_on (ground (arith, known))
    ]

-- A visit does not run out of fuel and leaves `visiting` as it was.
Returns : List String → Result VariantError Marks → Type 0
Returns visiting result =
    (is_exhausted result ≡ false) × ((m : Marks) → result ≡ ok m → m.visiting ≡ visiting)

abbrev accepted : Marks → Result VariantError Marks
accepted m = ok m

same_ok : (m m' : Marks) → accepted m ≡ ok m' → m ≡ m'
same_ok m m' h = ground (arith, h)

visit_each-Returns :
    (ids visiting : List String) (f : Marks → String → Result VariantError Marks)
    → ((m : Marks) (id : String)
        → m.visiting ≡ visiting
        → contains id ids ≡ true
        → Returns visiting (f m id))
    → (m : Marks) (ds : List String) → m.visiting ≡ visiting
    → all (λ i. contains i ids) ds ≡ true
    → Returns visiting (visit_each f m ds)
unfolding visit_each Returns
visit_each-Returns ids visiting f one m [] same known =
    (refl, λ m' h. ap (λ k. k.visiting) (sym (same_ok m m' h)) ∙ same)
visit_each-Returns ids visiting f one m (d ∷ ds) same known =
    let (runs, back) = one m d same (ground (arith, known)) in
    elim (Result-cases (f m d)) [
      | inr (problem, refused) ↦
          (ground (arith, runs, refused), λ m' h. absurd (ground (arith, h, refused)))
      | inl (next, made) ↦
          let (runs', back') =
            visit_each-Returns ids visiting f one next ds (back next made)
              (ground (arith, known)) in
          (ground (arith, made, runs'), λ m' h. back' m' (ground (arith, h, made)))
    ]

module _ (stages : List WorkflowStage) (distinct : all_unique (stage_ids stages) ≡ true)
    (known : any (λ stage. any (λ i. not (contains i (stage_ids stages))) stage.depends_on) stages
      ≡ false) where
  -- More distinct stages than there are cannot be visited at once.
  few-visiting :
      (visiting : List String)
      → all_unique visiting ≡ true
      → all (λ i. contains i (stage_ids stages)) visiting ≡ true
      → length visiting ≤ length (stage_ids stages)
  few-visiting visiting unique inside = omega (
    arith,
    count_if-contains visiting (stage_ids stages) unique distinct inside,
    count_if-le-length (λ i. contains i visiting) (stage_ids stages),
  )

  visit-Returns :
      (fuel : ℕ) (m : Marks) (id : String)
      → all_unique m.visiting ≡ true
      → all (λ i. contains i (stage_ids stages)) m.visiting ≡ true
      → contains id (stage_ids stages) ≡ true
      → length (stage_ids stages) < fuel + length m.visiting
      → Returns m.visiting (visit stages fuel m id)
  unfolding visit Returns
  visit-Returns zero m id unique inside here enough =
      absurd (omega (arith, few-visiting m.visiting unique inside, enough))
  visit-Returns (suc fuel) m id unique inside here enough =
      elim (Bool-cases (contains id m.visited)) [
        | inl seen ↦ (
          ground (arith, seen),
          λ m' h. ap (λ k. k.visiting) (sym (same_ok m m' (ground (arith, h, seen)))),
        )
        | inr unseen ↦ elim (Bool-cases (contains id m.visiting)) [
          | inl again ↦
              (ground (arith, unseen, again), λ m' h. absurd (ground (arith, h, unseen, again)))
          | inr fresh ↦ elim (Option-cases (dependencies stages id)) [
            | inl missing ↦ (
              ground (arith, unseen, fresh, missing),
              λ m' h. absurd (ground (arith, h, unseen, fresh, missing)),
            )
            | inr (ds, found) ↦
                let inner =
                  visit_each-Returns (stage_ids stages) (id ∷ m.visiting) (visit stages fuel)
                    (λ k i same there.
                      subst (λ vs. Returns vs (visit stages fuel k i)) same
                        (visit-Returns fuel k i
                          (ap all_unique same
                            ∙ ground (arith, all_unique-cons id m.visiting, unique, fresh))
                          (ap (all (λ j. contains j (stage_ids stages))) same
                            ∙ ground (arith, here, inside))
                          there (omega (arith, ap length same, enough))))
                    (entered m id) ds refl
                    (dependencies-known (stage_ids stages) stages id ds known found) in
                elim (Result-cases (visit_each (visit stages fuel) (entered m id) ds)) [
                  | inr (problem, refused) ↦ (
                    ground (arith, unseen, fresh, found, refused, inner.0),
                    λ m' h. absurd (ground (arith, h, unseen, fresh, found, refused)),
                  )
                  | inl (next, made) ↦ (
                    ground (arith, unseen, fresh, found, made),
                    λ m' h.
                        let same : left next id ≡ m' =
                          ground (arith, h, unseen, fresh, found, made) in
                        ap (λ k. k.visiting) (sym same)
                        ∙ ap (without id) (inner.1 next made)
                        ∙ ground (arith, ==-refl id, without-fresh id m.visiting fresh),
                  )
                ]
          ]
        ]
      ]

all_itself :
    (ids xs : List String)
    → ((x : String) → contains x xs ≡ true → contains x ids ≡ true)
    → all (λ i. contains i ids) xs ≡ true
all_itself ids [] keep = refl
all_itself ids (x ∷ xs) keep = ground (
  arith,
  keep x (ground (arith, ==-refl x)),
  all_itself ids xs (λ y found. keep y (ground (arith, found))),
)

stages-run : (stages : List WorkflowStage) → is_exhausted (validated_stages stages) ≡ false
unfolding validated_stages validated_stage
stages-run [] = refl
stages-run (stage ∷ stages) = ground (arith, stages-run stages)

-- Validating a workflow never runs out of the fuel of one call more than it has stages: each of the
-- calls of `visit` that are open at once is for another stage, so that the function ends.
pub validated_workflow-ends : (w : WorkflowVariant) → is_exhausted (validated_workflow w) ≡ false
unfolding validated_workflow visit_all Returns
validated_workflow-ends w = elim (Result-cases (validated_stages w.stages)) [
  | inr (problem, refused) ↦ ground (arith, refused, stages-run w.stages)
  | inl (done, valid) ↦ elim (Bool-cases (all_unique (stage_ids w.stages))) [
    | inr repeated ↦ ground (arith, valid, repeated)
    | inl distinct ↦
        elim (Bool-cases (
          any (λ stage. any (λ i. not (contains i (stage_ids w.stages))) stage.depends_on)
            w.stages)) [
              | inl unknown ↦ ground (arith, valid, distinct, unknown)
              | inr known ↦
                  let start : Marks = record { visiting = []; visited = [] } in
                  let size = length-map (λ stage. stage.id) w.stages in
                  let ends =
                    visit_each-Returns (stage_ids w.stages) []
                      (visit w.stages (suc (length w.stages)))
                      (λ m id same here.
                        subst (λ vs. Returns vs (visit w.stages (suc (length w.stages)) m id)) same
                          (visit-Returns w.stages distinct known (suc (length w.stages)) m id
                            (ap all_unique same)
                            (ap (all (λ i. contains i (stage_ids w.stages))) same) here
                            (omega (arith, size))))
                      start (stage_ids w.stages) refl
                      (all_itself (stage_ids w.stages) (stage_ids w.stages) (λ x found. found)) in
                  ground (arith, valid, distinct, known, ends.0)
            ]
  ]
]
