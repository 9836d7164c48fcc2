-- ===== src/Genome/Frame.antt =====
-- What the application of patches in src/e2h/genome.py changes, and what it leaves.
use e2h.Prelude.{
  ◌≡◌, ◌∙◌, refl, sym, ap, String, none, some, List, [], ◌∷◌, map, ◌==◌, text_eq, number_eq, Eq,
  Bool-cases, Option-cases, inl, inr, arith, if◌then◌else◌,
}
use e2h.Result.{ok, Result-cases}
use e2h.Genome.Capsule.{Check, Capsule}
use e2h.Genome.Patches.{
  CheckChange, argv_set, cwd_set, env_set, env_remove, timeout_set, expected_exit_codes_set,
  continue_on_failure_set, check_set, find_check, replace_check, apply_to_check, apply_patch,
  network_eq,
}

module _ {F : Type 0} where
  -- A list of checks with one of them replaced.
  pub find-replace :
      (check_id j : String) (new : Check F) (checks : List (Check F))
      → new.id ≡ check_id
      → find_check j (replace_check check_id new checks) ≡ (
          if check_id == j
          then (elim (find_check check_id checks) [ none ↦ none | some old ↦ some new ])
          else find_check j checks)
  unfolding find_check replace_check
  find-replace check_id j new [] h = ground arith
  find-replace check_id j new (check ∷ checks) h = ground (
    arith,
    find-replace check_id j new checks h,
    text_eq.equal_iff check.id check_id,
    text_eq.equal_iff check_id j,
    text_eq.equal_iff new.id j,
    text_eq.equal_iff check.id j,
    h,
  )

  pub ids_of-replace :
      (check_id : String) (new : Check F) (checks : List (Check F))
      → new.id ≡ check_id
      → map (λ c. c.id) (replace_check check_id new checks) ≡ map (λ c. c.id) checks
  unfolding replace_check
  ids_of-replace check_id new [] h = refl
  ids_of-replace check_id new (check ∷ checks) h = elim (Bool-cases (check.id == check_id)) [
    | inl same ↦ rw same (
        ap (λ i. i ∷ map (λ c. c.id) checks)
          (h ∙ sym (ground (arith, same, text_eq.equal_iff check.id check_id))))
    | inr other ↦ rw other (ap (λ l. check.id ∷ l) (ids_of-replace check_id new checks h))
  ]

  module _ ⦃e : Eq F⦄ where
    -- A patch of a check keeps the check's id.
    pub id_of-apply_to_check :
        (patch_id : String) (change : CheckChange F) (check new : Check F)
        → apply_to_check patch_id change check ≡ ok new
        → new.id ≡ check.id
    unfolding apply_to_check
    id_of-apply_to_check patch_id (argv_set argv) check new h = ground (arith, h)
    id_of-apply_to_check patch_id (cwd_set cwd) check new h = ground (arith, h)
    id_of-apply_to_check patch_id (env_set name value) check new h = ground (arith, h)
    id_of-apply_to_check patch_id (env_remove name) check new h = ground (arith, h)
    id_of-apply_to_check patch_id (timeout_set seconds) check new h = ground (arith, h)
    id_of-apply_to_check patch_id (expected_exit_codes_set codes) check new h = ground (arith, h)
    id_of-apply_to_check patch_id (continue_on_failure_set keep_on) check new h = ground (arith, h)

    -- What a patch of a check does to the list of checks.
    pub check_set-replaces :
        {R : Type 0} (capsule new : Capsule F R) (patch_id check_id : String)
        (change : CheckChange F)
        → apply_patch capsule (record { id = patch_id; change = check_set check_id change })
          ≡ ok new
        → (old changed : Check F) × (find_check check_id capsule.commands ≡ some old)
          × (apply_to_check patch_id change old ≡ ok changed)
          × (new.commands ≡ replace_check check_id changed capsule.commands)
    unfolding apply_patch
    check_set-replaces capsule new patch_id check_id change h =
        elim (Option-cases (find_check check_id capsule.commands)) [
          | inl missing ↦ absurd (ground (arith, h, missing))
          | inr (old, found) ↦ elim (Result-cases (apply_to_check patch_id change old)) [
            | inr (problem, refused) ↦ absurd (ground (arith, h, found, refused))
            | inl (changed, accepted) ↦
                (old, changed, found, accepted, ground (arith, h, found, accepted))
          ]
        ]
