-- ===== src/Schema/Texts.antt =====
-- The validators of texts in src/e2h/models.py. A text is the list of its code points.
use e2h.Prelude.{
  ℕ, suc, ◌++◌, ◌+◌, ◌-◌, ◌*◌, Bool, true, false, not, ◌&&◌, ◌||◌, List, [], ◌∷◌, map, any, all,
  keep, ◌==◌, number_eq, contains, leb, ltb, length, codes, if◌then◌else◌,
}
use e2h.Result.{Result, ok, refuse, ◌>>◌}

abbrev pub Text : Type 0
Text = List ℕ

pub data SchemaError : Type 0 where
  has_nul absolute_path parent_traversal : SchemaError
  user_not_numeric user_id_too_large root_user : SchemaError
  image_like_option image_not_immutable : SchemaError
  bad_id bad_argv bad_environment_key bad_environment_value negative_exit_code : SchemaError
  no_exit_codes no_commands ids_not_unique bad_goal out_of_range : SchemaError
  too_many_commands command_not_permitted bad_metadata : SchemaError

unfoldable pub same_text : Text → Text → Bool
same_text [] [] = true
same_text (c ∷ text) (d ∷ other) = c == d && same_text text other
same_text _ _ = false

abbrev pub is_empty : Text → Bool
is_empty [] = true
is_empty (c ∷ text) = false

abbrev pub put_first : ℕ → List Text → List Text
put_first c [] = (c ∷ []) ∷ []
put_first c (part ∷ parts) = (c ∷ part) ∷ parts

-- `text.split(separator)`
unfoldable pub split : ℕ → Text → List Text
split separator [] = [] ∷ []
split separator (c ∷ text) =
    let rest = split separator text in if c == separator then [] ∷ rest else put_first c rest

unfoldable pub starts_with : ℕ → Text → Bool
starts_with c [] = false
starts_with c (d ∷ text) = d == c

leading_slashes : Text → ℕ
leading_slashes [] = 0
leading_slashes (c ∷ text) = let n = leading_slashes text in if c == b'/' then suc n else 0

-- The part that a path's root makes: two leading slashes are a root of their own.
unfoldable pub root_parts : Text → List Text
unfolding leading_slashes
root_parts value =
    let n = leading_slashes value in
    if n == 0 then [] else (if n == 2 then codes "//" else codes "/") ∷ []

-- `PurePosixPath(value).parts`
unfoldable pub path_parts : Text → List Text
unfolding split same_text root_parts
path_parts value =
    root_parts value
    ++ keep (λ part. not (is_empty part || same_text part (codes "."))) (split b'/' value)

abbrev pub is_parent : Text → Bool
is_parent part = same_text part (codes "..")

-- `_validate_relative_path`
unfoldable pub validate_relative_path : Text → Result SchemaError Text
unfolding path_parts starts_with
validate_relative_path value = do
  refuse (contains 0 value) has_nul
  refuse (starts_with b'/' value) absolute_path
  refuse (any is_parent (path_parts value)) parent_traversal
  ok value

abbrev pub is_digit : ℕ → Bool
is_digit c = leb b'0' c && leb c b'9'

-- `part and part.isascii() and part.isdecimal()`
abbrev pub is_decimal : Text → Bool
is_decimal part = not (is_empty part) && all is_digit part

-- `int(part)`, from the left
unfoldable pub decimal : ℕ → Text → ℕ
decimal n [] = n
decimal n (c ∷ part) = decimal (n * 10 + (c - b'0')) part

-- `_MAX_CONTAINER_NUMERIC_ID`
abbrev pub max_numeric_id : ℕ
max_numeric_id = 2147483647

abbrev pub first_id : List ℕ → ℕ
first_id [] = 0
first_id (n ∷ ids) = n

-- `user_must_be_non_root`
unfoldable pub user_must_be_non_root : Text → Result SchemaError Text
unfolding split decimal
user_must_be_non_root value = do
  let parts = split b':' value
  let ids = map (decimal 0) parts
  refuse (not (length parts == 1 || length parts == 2) || any (λ part. not (is_decimal part)) parts)
      user_not_numeric
  refuse (any (λ n. ltb max_numeric_id n) ids) user_id_too_large
  refuse (first_id ids == 0) root_user
  ok value

abbrev is_hex : ℕ → Bool
is_hex c = is_digit c || (leb b'a' c && leb c b'f')

-- `sha256:` and 64 hexadecimal digits
unfoldable pub is_digest : Text → Text → Bool
is_digest [] digits = length digits == 64 && all is_hex digits
is_digest (c ∷ prefix) [] = false
is_digest (c ∷ prefix) (d ∷ text) = c == d && is_digest prefix text

module _ (is_space : ℕ → Bool) where
  -- `[^@\s]+@sha256:[0-9a-f]{64}`; `seen` says whether the name has begun.
  unfoldable pub matches_reference : (seen : Bool) → Text → Bool
  unfolding is_digest
  matches_reference seen [] = false
  matches_reference seen (c ∷ text) =
      let rest = matches_reference true text in
      if c == b'@' then seen && is_digest (codes "sha256:") text else not (is_space c) && rest

  -- `image_must_be_immutable`
  unfoldable pub image_must_be_immutable : Text → Result SchemaError Text
  unfolding matches_reference starts_with
  image_must_be_immutable value = do
    refuse (contains 0 value) has_nul
    refuse (starts_with b'-' value) image_like_option
    refuse (not (matches_reference false value)) image_not_immutable
    ok value
