-- ===== src/Tests/Schemas.antt =====
-- A relative path, a container user and a capsule of two commands that are accepted.
use e2h.Prelude.{ℕ, ◌≡◌, refl, Bool, true, false, none, some, [], ◌∷◌, ◌++◌, eqb, pos, codes}
use e2h.Schema.Texts.{
  root_parts, starts_with, split, path_parts, same_text, validate_relative_path,
  user_must_be_non_root,
}
use e2h.Schema.Inside.{walk, validate_relative_path-inside}
use e2h.Schema.Documents.{
  CheckFields, CapsuleFields, Ranges, matches_id, validated_capsule, distinct_texts, text_in,
}
use e2h.Schema.Located.{AllRunInside, AllDiffer, validated_capsule-AllRunInside}
use e2h.Schema.Users.{print, user_text, user_must_be_non_root-user_text}
use e2h.Result.{ok}

validate_relative_path-inside_example :
    walk (codes "work" ∷ []) (path_parts (codes "src/./e2h"))
    ≡ (codes "work" ∷ []) ++ path_parts (codes "src/./e2h")
unfolding validate_relative_path path_parts root_parts starts_with split same_text
validate_relative_path-inside_example =
    validate_relative_path-inside (codes "work" ∷ []) (codes "src/./e2h") (codes "src/./e2h") refl

user_must_be_non_root-user_text_example :
    user_must_be_non_root (user_text 65532 (some 0)) ≡ ok (user_text 65532 (some 0))
user_must_be_non_root-user_text_example = user_must_be_non_root-user_text 65532 (some 0)

-- The text is what `docker run --user` takes.
user_printed : user_text 65532 (some 0) ≡ codes "65532:0"
unfolding print
user_printed = refl

abbrev positive : Ranges ℕ
positive = record { is_timeout = λ n. true; is_cpus = λ n. true }

abbrev is_blank : ℕ → Bool
is_blank c = eqb c 32

abbrev build_fields : CheckFields ℕ
build_fields = record {
  id = codes "build";
  argv = codes "make" ∷ [];
  cwd = codes "src/tool";
  env = [];
  timeout_seconds = none;
  expected_exit_codes = pos 0 ∷ [];
  continue_on_failure = false;
}

abbrev test_fields : CheckFields ℕ
test_fields = record build_fields { id = codes "test"; cwd = codes "." }

abbrev capsule_fields : CapsuleFields ℕ
capsule_fields = record {
  id = codes "sample";
  goal = codes "build";
  working_directory = codes "repo";
  tools = codes "command" ∷ [];
  limits = record { max_commands = 50; default_timeout_seconds = 30; max_output_chars = 20000 };
  sandbox = none;
  commands = build_fields ∷ test_fields ∷ [];
}

validated_capsule-AllRunInside_example :
    AllRunInside (codes "work" ∷ []) (path_parts (codes "repo")) (build_fields ∷ test_fields ∷ [])
    × AllDiffer (codes "build" ∷ codes "test" ∷ [])
unfolding validated_capsule validate_relative_path path_parts root_parts starts_with split same_text
    text_in distinct_texts matches_id
validated_capsule-AllRunInside_example =
    validated_capsule-AllRunInside positive is_blank (codes "work" ∷ []) capsule_fields
      capsule_fields refl
