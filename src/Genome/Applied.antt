-- ===== src/Genome/Applied.antt =====
-- What all the patches of a genome of src/e2h/genome.py leave of a capsule.
use e2h.Prelude.{
  ◌≡◌, ◌∙◌, sym, ap, Bool, false, String, none, some, List, [], ◌∷◌, map, ◌==◌, text_eq, number_eq,
  Eq, Bool-cases, inl, inr, arith, any, if◌then◌else◌,
}
use e2h.Result.{ok, ◌>>=◌, Result-cases}
use e2h.Genome.Capsule.{Check, Capsule}
use e2h.Genome.Patches.{
  Change, goal_set, network_set, default_timeout_set, max_output_chars_set, check_set, Patch,
  find_check, apply_patch, apply_patches, network_eq,
}
use e2h.Genome.Frame.{find-replace, ids_of-replace, id_of-apply_to_check, check_set-replaces}

-- The check that a change names.
abbrev pub touches : {F : Type 0} → String → Change F → Bool
touches j (check_set check_id change) = check_id == j
touches j _ = false

pub find_check-id :
    {F : Type 0} (j : String) (checks : List (Check F)) (check : Check F)
    → find_check j checks ≡ some check
    → check.id ≡ j
unfolding find_check
find_check-id j [] check h = absurd (ground (arith, h))
find_check-id j (c ∷ checks) check h = elim (Bool-cases (c.id == j)) [
  | inl same ↦ ground (arith, h, same, text_eq.equal_iff c.id j)
  | inr other ↦ find_check-id j checks check (ground (arith, h, other))
]

module _ {F R : Type 0} ⦃e : Eq F⦄ where
  patch-frame :
      (capsule new : Capsule F R) (patch_id : String) (change : Change F)
      → apply_patch capsule (record { id = patch_id; change = change }) ≡ ok new
      → (map (λ c. c.id) new.commands ≡ map (λ c. c.id) capsule.commands)
        × ((j : String)
            → touches j change ≡ false
            → find_check j new.commands ≡ find_check j capsule.commands)
  unfolding apply_patch
  patch-frame capsule new patch_id (goal_set goal) h =
      let same : new.commands ≡ capsule.commands = ground (arith, h) in
      (ap (map (λ c. c.id)) same, λ j t. ap (find_check j) same)
  patch-frame capsule new patch_id (network_set network) h =
      let same : new.commands ≡ capsule.commands = ground (arith, h) in
      (ap (map (λ c. c.id)) same, λ j t. ap (find_check j) same)
  patch-frame capsule new patch_id (default_timeout_set seconds) h =
      let same : new.commands ≡ capsule.commands = ground (arith, h) in
      (ap (map (λ c. c.id)) same, λ j t. ap (find_check j) same)
  patch-frame capsule new patch_id (max_output_chars_set n) h =
      let same : new.commands ≡ capsule.commands = ground (arith, h) in
      (ap (map (λ c. c.id)) same, λ j t. ap (find_check j) same)
  patch-frame capsule new patch_id (check_set check_id change) h =
      let (old, changed, found, accepted, replaced) =
        check_set-replaces capsule new patch_id check_id change h in
      let id : changed.id ≡ check_id =
        id_of-apply_to_check patch_id change old changed accepted
        ∙ find_check-id check_id capsule.commands old found in
      (
        ap (map (λ c. c.id)) replaced ∙ ids_of-replace check_id changed capsule.commands id,
        λ j t.
            ap (find_check j) replaced
            ∙ find-replace check_id j changed capsule.commands id
            ∙ ap
                (λ b.
                  if b
                  then (elim (find_check check_id capsule.commands) [
                    | none ↦ none
                    | some o ↦ some changed
                  ])
                  else find_check j capsule.commands)
                t,
      )

  -- However many patches are applied, the checks keep their ids and their order, and a check that
  -- no patch names is found as it was.
  pub apply_patches-frame :
      (capsule new : Capsule F R) (patches : List (Patch F))
      → apply_patches capsule patches ≡ ok new
      → (map (λ c. c.id) new.commands ≡ map (λ c. c.id) capsule.commands)
        × ((j : String)
            → any (λ patch. touches j patch.change) patches ≡ false
            → find_check j new.commands ≡ find_check j capsule.commands)
  unfolding apply_patches
  apply_patches-frame capsule new [] h =
      let same : new ≡ capsule = ground (arith, h) in
      (ap (λ c. map (λ k. k.id) c.commands) same, λ j t. ap (λ c. find_check j c.commands) same)
  apply_patches-frame capsule new (patch ∷ patches) h =
      elim (Result-cases (apply_patch capsule patch)) [
        | inr (problem, refused) ↦ absurd (ground (arith, h, refused))
        | inl (next, accepted) ↦
            let (ids, found) = patch-frame capsule next patch.id patch.change accepted in
            let (later_ids, later_found) =
              apply_patches-frame next new patches
                (ap (λ m. m >>= λ n. apply_patches n patches) (sym accepted) ∙ h) in
            (
              later_ids ∙ ids,
              λ j t. later_found j (ground (arith, t)) ∙ found j (ground (arith, t)),
            )
      ]
