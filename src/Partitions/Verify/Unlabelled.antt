-- ===== src/Partitions/Verify/Unlabelled.antt =====
-- The public identity of a dataset in src/e2h/partitions.py does not depend on its labels.
use e2h.Prelude.{◌≡◌, ◌∙◌, ap, refl, List, [], ◌∷◌, map, Bool-cases, inl, inr}
use e2h.Dict.{text_ltb}
use e2h.Partitions.{DspyExample, DspyDatasetDocument, sort_texts, keys}
use e2h.Partitions.Verify.{
  insert_example, sort_examples, first_fields, public_example, public_dataset,
}

module _ {V : Type 0} where
  -- Two lists of examples that differ in the values of the outputs only
  unfoldable pub Relabelled : List (DspyExample V) → List (DspyExample V) → Type 0
  Relabelled [] [] = Unit
  Relabelled [] (b ∷ bs) = ⊥
  Relabelled (a ∷ as_) [] = ⊥
  Relabelled (a ∷ as_) (b ∷ bs) =
      (a.id ≡ b.id) × (a.inputs ≡ b.inputs) × (keys a.outputs ≡ keys b.outputs) × Relabelled as_ bs

  insert_example-Relabelled :
      (a b : DspyExample V) (as_ bs : List (DspyExample V))
      → a.id ≡ b.id
      → a.inputs ≡ b.inputs
      → keys a.outputs ≡ keys b.outputs
      → Relabelled as_ bs
      → Relabelled (insert_example a as_) (insert_example b bs)
  unfolding Relabelled insert_example
  insert_example-Relabelled a b [] [] id inputs outputs h = (id, inputs, outputs, tt)
  insert_example-Relabelled a b [] (d ∷ bs) id inputs outputs h = absurd h
  insert_example-Relabelled a b (c ∷ as_) [] id inputs outputs h = absurd h
  insert_example-Relabelled a b (c ∷ as_) (d ∷ bs) id inputs outputs (cid, ci, co, rest) =
      let same : text_ltb c.id a.id ≡ text_ltb d.id b.id =
        ap (λ i. text_ltb i a.id) cid ∙ ap (text_ltb d.id) id in
      elim (Bool-cases (text_ltb d.id b.id)) [
        | inl before ↦
            rw (same, before)
              (cid, ci, co, insert_example-Relabelled a b as_ bs id inputs outputs rest)
        | inr after ↦ rw (same, after) (id, inputs, outputs, (cid, ci, co, rest))
      ]

  sort_examples-Relabelled :
      (as_ bs : List (DspyExample V))
      → Relabelled as_ bs
      → Relabelled (sort_examples as_) (sort_examples bs)
  unfolding Relabelled sort_examples
  sort_examples-Relabelled [] [] h = tt
  sort_examples-Relabelled [] (b ∷ bs) h = absurd h
  sort_examples-Relabelled (a ∷ as_) [] h = absurd h
  sort_examples-Relabelled (a ∷ as_) (b ∷ bs) (id, inputs, outputs, rest) =
      insert_example-Relabelled a b (sort_examples as_) (sort_examples bs) id inputs outputs
        (sort_examples-Relabelled as_ bs rest)

  stripped :
      (as_ bs : List (DspyExample V))
      → Relabelled as_ bs
      → map public_example as_ ≡ map public_example bs
  unfolding Relabelled
  stripped [] [] h = refl
  stripped [] (b ∷ bs) h = absurd h
  stripped (a ∷ as_) [] h = absurd h
  stripped (a ∷ as_) (b ∷ bs) (id, inputs, outputs, rest) =
      rw (id, inputs, stripped as_ bs rest) refl

  same_inputs :
      (as_ bs : List (DspyExample V))
      → Relabelled as_ bs
      → first_fields (λ e. e.inputs) as_ ≡ first_fields (λ e. e.inputs) bs
  unfolding Relabelled first_fields
  same_inputs [] [] h = refl
  same_inputs [] (b ∷ bs) h = absurd h
  same_inputs (a ∷ as_) [] h = absurd h
  same_inputs (a ∷ as_) (b ∷ bs) h = ap (λ i. sort_texts (keys i)) h.1

  same_outputs :
      (as_ bs : List (DspyExample V))
      → Relabelled as_ bs
      → first_fields (λ e. e.outputs) as_ ≡ first_fields (λ e. e.outputs) bs
  unfolding Relabelled first_fields
  same_outputs [] [] h = refl
  same_outputs [] (b ∷ bs) h = absurd h
  same_outputs (a ∷ as_) [] h = absurd h
  same_outputs (a ∷ as_) (b ∷ bs) h = ap sort_texts h.2

  -- Two datasets with the same id whose examples have, in order, the same ids, inputs and names of
  -- outputs have the same public payload, so that its digest tells nothing of the labels.
  pub public_dataset-Relabelled :
      (d e : DspyDatasetDocument V)
      → d.id ≡ e.id
      → Relabelled d.examples e.examples
      → public_dataset d ≡ public_dataset e
  unfolding public_dataset
  public_dataset-Relabelled d e id h =
      rw
        (
          id,
          same_inputs d.examples e.examples h,
          same_outputs d.examples e.examples h,
          stripped (sort_examples d.examples) (sort_examples e.examples)
              (sort_examples-Relabelled d.examples e.examples h),
        )
        refl
