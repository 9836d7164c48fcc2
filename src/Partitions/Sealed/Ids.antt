-- ===== src/Partitions/Sealed/Ids.antt =====
-- The sealed ids of a validated partition of src/e2h/partitions.py: there is at least one.
use e2h.Prelude.{
  suc, ◌≤◌, ◌≡◌, ◌∙◌, ap, refl, String, List, [], ◌∷◌, text_eq, length, inl, inr, arith,
}
use e2h.Result.{ok, Result-cases}
use e2h.Partitions.{
  DatasetPartitionDocument, insert_text, sort_texts, validated_split, validated_document,
}

length-insert_text :
    (t : String) (texts : List String) → length (insert_text t texts) ≡ suc (length texts)
unfolding insert_text
length-insert_text t [] = refl
length-insert_text t (u ∷ texts) = ground (arith, length-insert_text t texts)

length-sort_texts : (texts : List String) → length (sort_texts texts) ≡ length texts
unfolding sort_texts
length-sort_texts [] = refl
length-sort_texts (t ∷ texts) =
    length-insert_text t (sort_texts texts) ∙ ap suc (length-sort_texts texts)

split-some : (ids sorted : List String) → validated_split ids ≡ ok sorted → 1 ≤ length sorted
unfolding validated_split
split-some ids sorted h =
    let same : sort_texts ids ≡ sorted = ground (arith, h) in
    let least : 1 ≤ length ids = ground (arith, h) in
    omega (arith, ap length same, length-sort_texts ids, least)

pub sealed-some :
    (document document' : DatasetPartitionDocument)
    → validated_document document ≡ ok document'
    → 1 ≤ length document'.sealed_test_ids
unfolding validated_document
sealed-some document document' h = elim (Result-cases (validated_split document.train_ids)) [
  | inr (problem, refused) ↦ absurd (ground (arith, h, refused))
  | inl (a, va) ↦ elim (Result-cases (validated_split document.validation_ids)) [
    | inr (problem, refused) ↦ absurd (ground (arith, h, va, refused))
    | inl (b, vb) ↦ elim (Result-cases (validated_split document.sealed_test_ids)) [
      | inr (problem, refused) ↦ absurd (ground (arith, h, va, vb, refused))
      | inl (c, vc) ↦
          let same : c ≡ document'.sealed_test_ids = ground (arith, h, va, vb, vc) in
          omega (arith, ap length same, split-some document.sealed_test_ids c vc)
    ]
  ]
]
