-- ===== src/Schema/Located.antt =====
-- Where the commands of a validated capsule of src/e2h/models.py run, and how they are told apart.
use e2h.Prelude.{
  ℕ, ◌≤◌, ◌≡◌, ◌≢◌, ◌∙◌, refl, ap, sym, subst, true, false, Bool, List, [], ◌∷◌, ◌++◌, map, ==-refl,
  number_eq, length, Bool-cases, inl, inr, arith,
}
use e2h.Result.{ok, collect, Result-cases}
use e2h.Schema.Texts.{Text, same_text, path_parts, validate_relative_path}
use e2h.Schema.Inside.{walk, validate_relative_path-inside}
use e2h.Schema.Documents.{
  CheckFields, CapsuleFields, Ranges, text_in, distinct_texts, validated_check, validated_commands,
  validated_limits, validated_sandbox, validated_capsule,
}

abbrev pub NotAmong : Text → List Text → Type 0
NotAmong text [] = Unit
NotAmong text (other ∷ texts) = (text ≢ other) × NotAmong text texts

abbrev pub AllDiffer : List Text → Type 0
AllDiffer [] = Unit
AllDiffer (text ∷ texts) = NotAmong text texts × AllDiffer texts

same_text_refl : (text : Text) → same_text text text ≡ true
unfolding same_text
same_text_refl [] = refl
same_text_refl (c ∷ text) = ground (arith, ==-refl c, same_text_refl text)

text_in-NotAmong :
    (text : Text) (texts : List Text) → text_in text texts ≡ false → NotAmong text texts
unfolding text_in
text_in-NotAmong text [] h = tt
text_in-NotAmong text (other ∷ texts) h = (
  λ same. absurd (ground (arith, h, ap (λ t. same_text other t) same ∙ same_text_refl other)),
  text_in-NotAmong text texts (ground (arith, h)),
)

length-distinct_texts-le : (texts : List Text) → length (distinct_texts texts) ≤ length texts
unfolding distinct_texts
length-distinct_texts-le [] = omega arith
length-distinct_texts-le (text ∷ texts) = ground (arith, length-distinct_texts-le texts)

-- A list that loses nothing when repetitions are dropped has none.
distinct_texts-AllDiffer :
    (texts : List Text) → length texts ≡ length (distinct_texts texts) → AllDiffer texts
unfolding distinct_texts
distinct_texts-AllDiffer [] h = tt
distinct_texts-AllDiffer (text ∷ texts) h = elim (Bool-cases (text_in text texts)) [
  | inl repeated ↦ absurd (ground (arith, h, repeated, length-distinct_texts-le texts))
  | inr new ↦
      (text_in-NotAmong text texts new, distinct_texts-AllDiffer texts (ground (arith, h, new)))
]

module _ {F : Type 0} where
  -- The directory that the command runs in, reached by way of the working directory
  abbrev pub RunsInside : (base directory : List Text) → CheckFields F → Type 0
  RunsInside base directory check =
      walk (walk base directory) (path_parts check.cwd)
      ≡ (base ++ directory) ++ path_parts check.cwd

  abbrev pub AllRunInside : (base directory : List Text) → List (CheckFields F) → Type 0
  AllRunInside base directory [] = Unit
  AllRunInside base directory (check ∷ checks) =
      RunsInside base directory check × AllRunInside base directory checks

  module _ (ranges : Ranges F) (is_space : ℕ → Bool) where
    validated_check-cwd :
        (check check' : CheckFields F)
        → validated_check ranges is_space check ≡ ok check'
        → (check ≡ check') × ((cwd : Text) × (validate_relative_path check.cwd ≡ ok cwd))
    unfolding validated_check
    validated_check-cwd check check' h = elim (Result-cases (validate_relative_path check.cwd)) [
      | inr (problem, refused) ↦ absurd (ground (arith, h, refused))
      | inl (cwd, accepted) ↦ (ground (arith, h, accepted), (cwd, accepted))
    ]

    checks_run :
        (base directory : List Text) (checks checks' : List (CheckFields F))
        → walk base directory ≡ base ++ directory
        → collect (validated_check ranges is_space) checks ≡ ok checks'
        → (checks ≡ checks') × AllRunInside base directory checks
    checks_run base directory [] checks' w h = (ground (arith, h), tt)
    checks_run base directory (check ∷ checks) checks' w h =
        elim (Result-cases (validated_check ranges is_space check)) [
          | inr (problem, refused) ↦ absurd (ground (arith, h, refused))
          | inl (c, accepted) ↦
              elim (Result-cases (collect (validated_check ranges is_space) checks)) [
                | inr (problem, refused) ↦ absurd (ground (arith, h, accepted, refused))
                | inl (cs, rest) ↦
                    let (same, (cwd, safe)) = validated_check-cwd check c accepted in
                    let (others, inside) = checks_run base directory checks cs w rest in
                    let made : c ∷ cs ≡ checks' = ground (arith, h, accepted, rest) in
                    (
                      ap (λ k. k ∷ checks) same ∙ ap (λ l. c ∷ l) others ∙ made,
                      (
                        ap (λ b. walk b (path_parts check.cwd)) w
                            ∙ validate_relative_path-inside (base ++ directory) check.cwd cwd safe,
                        inside,
                      ),
                    )
              ]
        ]

    commands_run :
        (base directory : List Text) (commands accepted : List (CheckFields F))
        → walk base directory ≡ base ++ directory
        → validated_commands ranges is_space commands ≡ ok accepted
        → AllRunInside base directory commands × AllDiffer (map (λ c. c.id) commands)
    unfolding validated_commands
    commands_run base directory commands accepted w h =
        elim (Result-cases (collect (validated_check ranges is_space) commands)) [
          | inr (problem, refused) ↦ absurd (ground (arith, h, refused))
          | inl (checks, collected) ↦
              let (same, inside) = checks_run base directory commands checks w collected in
              let ids = map (λ (c : CheckFields F). c.id) checks in
              let lengths : length ids ≡ length (distinct_texts ids) =
                ground (arith, h, collected) in
              (
                inside,
                subst (λ l. AllDiffer (map (λ c. c.id) l)) (sym same)
                    (distinct_texts-AllDiffer ids lengths),
              )
        ]

    -- The commands of a capsule that is accepted have pairwise different ids. From whatever place
    -- the walk begins, without links, each of them runs in a directory below that place: the working
    -- directory of the capsule and then its own directory are followed, and neither is left.
    pub validated_capsule-AllRunInside :
        (base : List Text) (capsule accepted : CapsuleFields F)
        → validated_capsule ranges is_space capsule ≡ ok accepted
        → AllRunInside base (path_parts capsule.working_directory) capsule.commands
          × AllDiffer (map (λ c. c.id) capsule.commands)
    unfolding validated_capsule
    validated_capsule-AllRunInside base capsule accepted h =
        elim (Result-cases (validate_relative_path capsule.working_directory)) [
          | inr (problem, refused) ↦ absurd (ground (arith, h, refused))
          | inl (directory, inside) ↦
              elim (Result-cases (validated_limits ranges is_space capsule.limits)) [
                | inr (problem, refused) ↦ absurd (ground (arith, h, inside, refused))
                | inl (limits, fit) ↦
                    elim (Result-cases (validated_sandbox ranges is_space capsule.sandbox)) [
                      | inr (problem, refused) ↦ absurd (ground (arith, h, inside, fit, refused))
                      | inl (sandbox, safe) ↦
                          elim (Result-cases
                            (validated_commands ranges is_space capsule.commands)) [
                              | inr (problem, refused) ↦
                                  absurd (ground (arith, h, inside, fit, safe, refused))
                              | inl (commands, run) ↦
                                  commands_run base (path_parts capsule.working_directory)
                                    capsule.commands commands
                                    (validate_relative_path-inside base capsule.working_directory
                                      directory inside)
                                    run
                            ]
                    ]
              ]
        ]
