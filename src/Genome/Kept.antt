-- ===== src/Genome/Kept.antt =====
-- That the patches of a genome in src/e2h/genome.py do not undo each other.
use e2h.Prelude.{
  ◌≡◌, ◌≢◌, ◌∙◌, refl, sym, ap, subst, false, true, String, some, List, [], ◌∷◌, map, ◌==◌, ==-refl,
  text_eq, number_eq, Eq, contains, all_unique, all_unique-cons, Bool-cases, Option-cases, inl, inr,
  arith, if◌then◌else◌,
}
use Prim.Native.String.{◌++◌ as append_text}
use e2h.Result.{ok, ◌>>=◌, Result-cases}
use e2h.Genome.Capsule.{Check, Capsule}
use e2h.Genome.Patches.{
  CheckChange, check_target, Change, goal_set, network_set, default_timeout_set,
  max_output_chars_set, check_set, target_key, Patch, find_check, apply_to_check, apply_patch,
  apply_patches, network_eq, HarnessGenome, patches_must_be_unambiguous,
}
use e2h.Genome.Frame.{find-replace, id_of-apply_to_check, check_set-replaces}
use e2h.Genome.Applied.{find_check-id}
use e2h.Genome.Targets.{HasChange, effect, effect-HasChange, effect-keeps, apply_to_check-effect}

-- What a patch asks of a capsule
abbrev pub Holds : {F R : Type 0} → Change F → Capsule F R → Type 0
Holds (goal_set goal) capsule = capsule.goal ≡ goal
Holds (network_set network) capsule = capsule.network ≡ network
Holds (default_timeout_set seconds) capsule = capsule.default_timeout_seconds ≡ seconds
Holds (max_output_chars_set n) capsule = capsule.max_output_chars ≡ n
Holds {F = F} (check_set check_id change) capsule =
    (check : Check F) × (find_check check_id capsule.commands ≡ some check) × HasChange change check

abbrev pub AllHold : {F R : Type 0} → List (Patch F) → Capsule F R → Type 0
AllHold [] capsule = Unit
AllHold (patch ∷ patches) capsule = Holds patch.change capsule × AllHold patches capsule

module _ {F : Type 0} ⦃e : Eq F⦄ where
  module _ {R : Type 0} where
    -- The check that an accepted patch of a check changes, and the one that is found then
    check_set-found :
        (patch_id check_id j : String) (change : CheckChange F) (capsule new : Capsule F R)
        → apply_patch capsule (record { id = patch_id; change = check_set check_id change })
          ≡ ok new
        → (old : Check F) × (find_check check_id capsule.commands ≡ some old)
          × (find_check j new.commands
              ≡ (if check_id == j then some (effect change old) else find_check j capsule.commands))
    check_set-found patch_id check_id j change capsule new h =
        let (old, changed, found, accepted, replaced) =
          check_set-replaces capsule new patch_id check_id change h in
        let id : changed.id ≡ check_id =
          id_of-apply_to_check patch_id change old changed accepted
          ∙ find_check-id check_id capsule.commands old found in
        let made : effect change old ≡ changed =
          apply_to_check-effect patch_id change old changed accepted in
        (
          old,
          found,
          ap (find_check j) replaced
              ∙ find-replace check_id j changed capsule.commands id
              ∙ ground (arith, found, made),
        )

    apply_patch-Holds :
        (capsule new : Capsule F R) (patch_id : String) (change : Change F)
        → apply_patch capsule (record { id = patch_id; change = change }) ≡ ok new
        → Holds change new
    unfolding apply_patch
    apply_patch-Holds capsule new patch_id (goal_set goal) h = ground (arith, h)
    apply_patch-Holds capsule new patch_id (network_set network) h = ground (arith, h)
    apply_patch-Holds capsule new patch_id (default_timeout_set seconds) h = ground (arith, h)
    apply_patch-Holds capsule new patch_id (max_output_chars_set n) h = ground (arith, h)
    apply_patch-Holds capsule new patch_id (check_set check_id change) h =
        let (old, found, now) = check_set-found patch_id check_id check_id change capsule new h in
        (effect change old, now ∙ ground (arith, ==-refl check_id), effect-HasChange change old)

    check_set-keeps :
        (patch_id check_id kept_id : String) (change kept : CheckChange F)
        (capsule new : Capsule F R)
        → apply_patch capsule (record { id = patch_id; change = check_set check_id change })
          ≡ ok new
        → target_key (check_set check_id change) ≢ target_key (check_set kept_id kept)
        → Holds (check_set kept_id kept) capsule
        → Holds (check_set kept_id kept) new
    unfolding target_key
    check_set-keeps patch_id check_id kept_id change kept capsule new h d (check, at, has) =
        let (old, found, now) = check_set-found patch_id check_id kept_id change capsule new h in
        elim (Bool-cases (check_id == kept_id)) [
          | inr other ↦ (check, now ∙ ground (arith, other, at), has)
          | inl same ↦
              let equal : check_id ≡ kept_id =
                ground (arith, same, text_eq.equal_iff check_id kept_id) in
              let one : check ≡ old =
                ground
                  (arith, sym at ∙ ap (λ i. find_check i capsule.commands) (sym equal) ∙ found) in
              let apart : check_target change ≢ check_target kept = λ targets. d (
                ap
                  (λ i.
                    append_text "check:" (append_text i (append_text ":" (check_target change))))
                  equal
                ∙ ap (λ t. append_text "check:" (append_text kept_id (append_text ":" t)))
                    targets) in
              (
                effect change old,
                now ∙ ground (arith, same),
                effect-keeps change kept old apart (subst (HasChange kept) one has),
              )
        ]

    apply_patch-keeps :
        (capsule new : Capsule F R) (patch_id : String) (change kept : Change F)
        → apply_patch capsule (record { id = patch_id; change = change }) ≡ ok new
        → target_key change ≢ target_key kept
        → Holds kept capsule
        → Holds kept new
    unfolding apply_patch target_key
    apply_patch-keeps capsule new patch_id (check_set i change) (check_set j kept) h d k =
        check_set-keeps patch_id i j change kept capsule new h d k
    apply_patch-keeps capsule new patch_id change (check_set j kept) h d (check, at, has) =
        let same : new.commands ≡ capsule.commands = ground (arith, h) in
        (check, ap (find_check j) same ∙ at, has)
    apply_patch-keeps capsule new patch_id (check_set i change) kept h d k =
        elim (Option-cases (find_check i capsule.commands)) [
          | inl missing ↦ absurd (ground (arith, h, missing))
          | inr (old, found) ↦ elim (Result-cases (apply_to_check patch_id change old)) [
            | inr (problem, refused) ↦ absurd (ground (arith, h, found, refused))
            | inl (changed, accepted) ↦ ground (arith, h, found, accepted, k)
          ]
        ]
    apply_patch-keeps capsule new patch_id (goal_set a) (goal_set b) h d k = absurd (d refl)
    apply_patch-keeps capsule new patch_id (network_set a) (network_set b) h d k = absurd (d refl)
    apply_patch-keeps capsule new patch_id (default_timeout_set a) (default_timeout_set b) h d k =
        absurd (d refl)
    apply_patch-keeps capsule new patch_id (max_output_chars_set a) (max_output_chars_set b) h d k =
        absurd (d refl)
    apply_patch-keeps capsule new patch_id change kept h d k = ground (arith, h, k)

    -- A change keeps holding while patches with other targets are applied.
    apply_patches-keeps :
        (kept : Change F) (capsule new : Capsule F R) (patches : List (Patch F))
        → apply_patches capsule patches ≡ ok new
        → contains (target_key kept) (map (λ patch. target_key patch.change) patches) ≡ false
        → Holds kept capsule
        → Holds kept new
    unfolding apply_patches
    apply_patches-keeps kept capsule new [] h c k =
        let same : capsule ≡ new = ground (arith, h) in subst (Holds kept) same k
    apply_patches-keeps kept capsule new (patch ∷ patches) h c k =
        elim (Result-cases (apply_patch capsule patch)) [
          | inr (problem, refused) ↦ absurd (ground (arith, h, refused))
          | inl (next, accepted) ↦
              let key = target_key kept in
              let apart : target_key patch.change ≢ key = λ same. absurd (
                ground (
                  arith,
                  c,
                  same,
                  text_eq.equal_iff key (target_key patch.change),
                  text_eq.equal_iff (target_key patch.change) key,
                )) in
              apply_patches-keeps kept next new patches
                (ap (λ m. m >>= λ n. apply_patches n patches) (sym accepted) ∙ h)
                (ground (arith, c))
                (apply_patch-keeps capsule next patch.id patch.change kept accepted apart k)
        ]

    apply_patches_of_unique :
        (capsule new : Capsule F R) (patches : List (Patch F))
        → apply_patches capsule patches ≡ ok new
        → all_unique (map (λ patch. target_key patch.change) patches) ≡ true
        → AllHold patches new
    unfolding apply_patches
    apply_patches_of_unique capsule new [] h u = tt
    apply_patches_of_unique capsule new (patch ∷ patches) h u =
        elim (Result-cases (apply_patch capsule patch)) [
          | inr (problem, refused) ↦ absurd (ground (arith, h, refused))
          | inl (next, accepted) ↦
              let cons =
                all_unique-cons (target_key patch.change)
                  (map (λ patch. target_key patch.change) patches) in
              let rest : apply_patches next patches ≡ ok new =
                ap (λ m. m >>= λ n. apply_patches n patches) (sym accepted) ∙ h in
              (
                apply_patches-keeps patch.change next new patches rest (ground (arith, u, cons))
                    (apply_patch-Holds capsule next patch.id patch.change accepted),
                apply_patches_of_unique next new patches rest (ground (arith, u, cons)),
              )
        ]

    -- When the patches of an unambiguous genome are applied, the capsule has at the end what every
    -- one of them asks: no patch undoes another one, in whatever order the genome lists them. A
    -- patch of a check asks it of the check that is found under its id.
    pub apply_patches-AllHold :
        (genome : HarnessGenome F) (capsule new : Capsule F R)
        → patches_must_be_unambiguous genome ≡ ok tt
        → apply_patches capsule genome.patches ≡ ok new
        → AllHold genome.patches new
    unfolding patches_must_be_unambiguous
    apply_patches-AllHold genome capsule new u h =
        apply_patches_of_unique capsule new genome.patches h (ground (arith, u))
