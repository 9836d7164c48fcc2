-- ===== src/Genome/Once.antt =====
-- What the digests of `apply_genome` in src/e2h/genome.py are for.
use e2h.Prelude.{
  ◌≡◌, ◌∙◌, ap, sym, true, false, String, Option, some, ◌==◌, text_eq, number_eq, Eq, Option-cases,
  inl, inr, arith,
}
use e2h.Result.{ok, err, Result-cases}
use e2h.Genome.Capsule.{Capsule}
use e2h.Genome.Patches.{
  HarnessGenome, GenomeApplication, wrong_base, patches_must_be_unambiguous, apply_patches,
  validated_application, apply_genome, network_eq,
}

module _ {F R : Type 0} ⦃e : Eq F⦄ (capsule_sha256 : Capsule F R → String)
    (genome_sha256 : HarnessGenome F → String) (validate : Capsule F R → Option (Capsule F R)) where
  -- The digest that the genome names is not that of the capsule in the application.
  application-base :
      (genome : HarnessGenome F) (capsule : Capsule F R) (a : GenomeApplication F R)
      → apply_genome capsule_sha256 genome_sha256 validate genome capsule ≡ ok a
      → (patches_must_be_unambiguous genome ≡ ok tt)
        × ((genome.base_capsule_sha256 == capsule_sha256 a.capsule) ≡ false)
  unfolding apply_genome validated_application
  application-base genome capsule a h = elim (Result-cases (patches_must_be_unambiguous genome)) [
    | inr (problem, refused) ↦ absurd (ground (arith, h, refused))
    | inl (done, distinct) ↦ elim (Option-cases (validate capsule)) [
      | inl invalid ↦ absurd (ground (arith, h, distinct, invalid))
      | inr (base, valid) ↦ elim (Result-cases (apply_patches base genome.patches)) [
        | inr (problem, refused) ↦ absurd (ground (arith, h, distinct, valid, refused))
        | inl (updated, applied) ↦ elim (Option-cases (validate updated)) [
          | inl invalid ↦ absurd (ground (arith, h, distinct, valid, applied, invalid))
          | inr (result, checked) ↦
              let embedded : result ≡ a.capsule =
                ground (arith, h, distinct, valid, applied, checked) in
              let named : (genome.base_capsule_sha256 == capsule_sha256 base) ≡ true =
                ground (arith, h, distinct, valid) in
              let differ : (capsule_sha256 base == capsule_sha256 result) ≡ false =
                ground (arith, h, distinct, valid, applied, checked) in
              (
                distinct,
                ap (λ c. genome.base_capsule_sha256 == capsule_sha256 c) (sym embedded)
                    ∙ ground (
                      arith,
                      named,
                      differ,
                      text_eq.equal_iff genome.base_capsule_sha256 (capsule_sha256 base),
                    ),
              )
        ]
      ]
    ]
  ]

  -- A genome is applied once: if its application returns a capsule that the schema accepts
  -- unchanged, then the same genome is refused for that capsule, because of the digest of its base.
  pub apply_genome-once :
      (genome : HarnessGenome F) (capsule : Capsule F R) (a : GenomeApplication F R)
      → apply_genome capsule_sha256 genome_sha256 validate genome capsule ≡ ok a
      → validate a.capsule ≡ some a.capsule
      → apply_genome capsule_sha256 genome_sha256 validate genome a.capsule ≡ err wrong_base
  unfolding apply_genome
  apply_genome-once genome capsule a h valid =
      let (distinct, other) = application-base genome capsule a h in
      ground (arith, distinct, other, valid)
