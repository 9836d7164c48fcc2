-- ===== src/Schema/Inside.antt =====
-- What the validation of a relative path in src/e2h/models.py is for.
use e2h.Prelude.{
  codes, ◌||◌, ℕ, ◌≡◌, ◌∙◌, refl, ap, sym, Bool, false, not, List, [], ◌∷◌, ◌++◌, any, keep, ◌==◌,
  number_eq, append-nil, append_assoc, Bool-cases, inl, inr, arith, if◌then◌else◌,
}
use e2h.Result.{ok}
use e2h.Schema.Texts.{
  is_empty, same_text, Text, put_first, split, starts_with, root_parts, path_parts, is_parent,
  validate_relative_path,
}

-- The parent of a place: a root is its own parent.
abbrev pub parent : List Text → List Text
parent [] = []
parent (part ∷ []) = if starts_with b'/' part then part ∷ [] else []
parent (part ∷ (next ∷ parts)) = part ∷ parent (next ∷ parts)

-- How the parts of a path are walked, without links: a root starts again at that root, and `..`
-- goes to the parent.
unfoldable pub walk : List Text → List Text → List Text
walk base [] = base
walk base (part ∷ parts) =
    if starts_with b'/' part
    then walk (part ∷ []) parts
    else if is_parent part
    then walk (parent base) parts
    else walk (base ++ (part ∷ [])) parts

walk-inside :
    (base parts : List Text)
    → any (starts_with b'/') parts ≡ false
    → any is_parent parts ≡ false
    → walk base parts ≡ base ++ parts
unfolding walk
walk-inside base [] r h = sym (append-nil base)
walk-inside base (part ∷ parts) r h = elim (Bool-cases (is_parent part)) [
  | inl up ↦ absurd (ground (arith, h, up))
  | inr down ↦ elim (Bool-cases (starts_with b'/' part)) [
    | inl rooted ↦ absurd (ground (arith, r, rooted))
    | inr relative ↦
        rw (relative, down)
          (walk-inside (base ++ (part ∷ [])) parts (ground (arith, r, relative))
              (ground (arith, h, down))
            ∙ append_assoc base (part ∷ []) parts)
  ]
]

starts_with-put_first :
    (c d : ℕ) (parts : List Text)
    → (d == c) ≡ false
    → any (starts_with c) parts ≡ false
    → any (starts_with c) (put_first d parts) ≡ false
unfolding starts_with
starts_with-put_first c d [] h k = ground (arith, h)
starts_with-put_first c d (part ∷ parts) h k = ground (arith, h, k)

-- No part that the splitting makes starts with the separator.
starts_with-split : (c : ℕ) (text : Text) → any (starts_with c) (split c text) ≡ false
unfolding split starts_with
starts_with-split c [] = refl
starts_with-split c (d ∷ text) = elim (Bool-cases (d == c)) [
  | inl same ↦ rw same (starts_with-split c text)
  | inr other ↦ rw other (starts_with-put_first c d (split c text) other (starts_with-split c text))
]

any-keep :
    (p q : Text → Bool) (parts : List Text) → any p parts ≡ false → any p (keep q parts) ≡ false
any-keep p q [] h = refl
any-keep p q (part ∷ parts) h = ground (arith, h, any-keep p q parts)

root_parts_of_relative : (value : Text) → starts_with b'/' value ≡ false → root_parts value ≡ []
unfolding root_parts starts_with
root_parts_of_relative [] h = refl
root_parts_of_relative (c ∷ value) h = ground (arith, h)

-- Walking a path that was accepted, part by part from any directory, never leaves that directory:
-- no part starts again at a root or goes up, and the place reached is the directory followed by the
-- path's parts.
pub validate_relative_path-inside :
    (base : List Text) (value accepted : Text)
    → validate_relative_path value ≡ ok accepted
    → walk base (path_parts value) ≡ base ++ path_parts value
unfolding validate_relative_path path_parts
validate_relative_path-inside base value accepted h =
    let relative : starts_with b'/' value ≡ false = ground (arith, h) in
    let down : any is_parent (path_parts value) ≡ false = ground (arith, h) in
    let named : Text → Bool = λ part. not (is_empty part || same_text part (codes ".")) in
    let parts : path_parts value ≡ keep named (split b'/' value) =
      ap (λ l. l ++ keep named (split b'/' value)) (root_parts_of_relative value relative) in
    walk-inside base (path_parts value)
      (ap (any (starts_with b'/')) parts
        ∙ any-keep (starts_with b'/') named (split b'/' value) (starts_with-split b'/' value))
      down
