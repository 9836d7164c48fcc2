-- ===== src/Schema/Documents.antt =====
-- The models of src/e2h/models.py that a capsule consists of, with their fields and validators. The
-- tests on floats are parameters; a capsule's metadata is not modelled.
use e2h.Prelude.{
  ℕ, Bool, true, false, not, ◌&&◌, ◌||◌, Option, none, some, List, [], ◌∷◌, map, any, all, ◌==◌,
  number_eq, ℤ, is_negative, contains, leb, ltb, length, codes, if◌then◌else◌,
}
use e2h.Result.{Result, ok, refuse, collect, ◌>>=◌, ◌>>◌}
use e2h.Schema.Texts.{
  Text, SchemaError, bad_id, bad_argv, bad_environment_key, bad_environment_value,
  negative_exit_code, no_exit_codes, no_commands, ids_not_unique, bad_goal, out_of_range,
  too_many_commands, command_not_permitted, same_text, is_empty, validate_relative_path,
  user_must_be_non_root, image_must_be_immutable,
}

abbrev is_letter_or_digit : ℕ → Bool
is_letter_or_digit c =
    (leb b'0' c && leb c b'9') || ((leb b'A' c && leb c b'Z') || (leb b'a' c && leb c b'z'))

abbrev is_id_code : ℕ → Bool
is_id_code c = is_letter_or_digit c || (c == b'_' || (c == b'.' || c == b'-'))

-- `^[a-zA-Z0-9][a-zA-Z0-9_.-]{0,127}$`
unfoldable pub matches_id : Text → Bool
matches_id [] = false
matches_id (c ∷ rest) = is_letter_or_digit c && (leb (length rest) 127 && all is_id_code rest)

-- `ids` without repetition: `len(ids) == len(set(ids))`
unfoldable pub text_in : Text → List Text → Bool
unfolding same_text
text_in text [] = false
text_in text (other ∷ texts) = same_text other text || text_in text texts

unfoldable pub distinct_texts : List Text → List Text
unfolding text_in
distinct_texts [] = []
distinct_texts (text ∷ texts) =
    let rest = distinct_texts texts in if text_in text texts then rest else text ∷ rest

-- `CommandCheck`
pub record CheckFields (F : Type 0) : Type 0 where
  pub id : Text
  pub argv : List Text
  pub cwd : Text
  pub env : List (Text × Text)
  pub timeout_seconds : Option F
  pub expected_exit_codes : List ℤ
  pub continue_on_failure : Bool

-- `ContainerSandbox`
pub record SandboxFields (F : Type 0) : Type 0 where
  pub image : Text
  pub user : Text
  pub pids_limit : ℕ
  pub memory_mb : ℕ
  pub cpus : F
  pub tmpfs_mb : ℕ

-- `ExecutionLimits`
pub record LimitFields (F : Type 0) : Type 0 where
  pub max_commands : ℕ
  pub default_timeout_seconds : F
  pub max_output_chars : ℕ

-- `TaskCapsule`, with the fields of `InitialState`, `AllowedActions` and `SuccessSpec`
pub record CapsuleFields (F : Type 0) : Type 0 where
  pub id : Text
  pub goal : Text
  pub working_directory : Text
  pub tools : List Text
  pub limits : LimitFields F
  pub sandbox : Option (SandboxFields F)
  pub commands : List (CheckFields F)

-- What the schema asks of floats: 0 < seconds <= 3600, and 0.1 <= cpus <= 128.
pub record Ranges (F : Type 0) : Type 0 where
  pub is_timeout : F → Bool
  pub is_cpus : F → Bool

abbrev within : ℕ → ℕ → ℕ → Bool
within low high n = leb low n && leb n high

module _ {F : Type 0} (ranges : Ranges F) (is_space : ℕ → Bool) where
  abbrev timeout_fits : Option F → Bool
  timeout_fits none = true
  timeout_fits (some seconds) = ranges.is_timeout seconds

  -- `environment_must_be_process_safe`
  unfoldable pub environment_must_be_process_safe :
      List (Text × Text) → Result SchemaError (Unit {0})
  environment_must_be_process_safe [] = ok tt
  environment_must_be_process_safe ((key, item) ∷ env) =
      refuse (is_empty key || (contains b'=' key || contains 0 key)) bad_environment_key
      >> refuse (contains 0 item) bad_environment_value
      >> environment_must_be_process_safe env

  -- `CommandCheck(...)`
  unfoldable pub validated_check : CheckFields F → Result SchemaError (CheckFields F)
  unfolding matches_id validate_relative_path environment_must_be_process_safe
  validated_check check = do
    refuse (not (matches_id check.id)) bad_id
    refuse (length check.argv == 0) bad_argv
    refuse (any (λ item. is_empty item || contains 0 item) check.argv) bad_argv
    cwd ← validate_relative_path check.cwd
    environment_must_be_process_safe check.env
    refuse (not (timeout_fits check.timeout_seconds)) out_of_range
    refuse (length check.expected_exit_codes == 0) no_exit_codes
    refuse (any is_negative check.expected_exit_codes) negative_exit_code
    ok check

  -- `ContainerSandbox(...)`
  unfoldable pub validated_sandbox :
      Option (SandboxFields F) → Result SchemaError (Option (SandboxFields F))
  unfolding image_must_be_immutable user_must_be_non_root
  validated_sandbox none = ok none
  validated_sandbox (some sandbox) = do
    refuse (not (within 1 500 (length sandbox.image))) out_of_range
    image ← image_must_be_immutable is_space sandbox.image
    refuse (ltb 64 (length sandbox.user)) out_of_range
    user ← user_must_be_non_root sandbox.user
    refuse (not (within 16 4096 sandbox.pids_limit)) out_of_range
    refuse (not (within 64 1048576 sandbox.memory_mb)) out_of_range
    refuse (not (ranges.is_cpus sandbox.cpus)) out_of_range
    refuse (not (within 16 4096 sandbox.tmpfs_mb)) out_of_range
    ok (some sandbox)

  -- `ExecutionLimits(...)`
  unfoldable pub validated_limits : LimitFields F → Result SchemaError (LimitFields F)
  validated_limits limits = do
    refuse (not (within 1 1000 limits.max_commands)) out_of_range
    refuse (not (ranges.is_timeout limits.default_timeout_seconds)) out_of_range
    refuse (not (within 256 5000000 limits.max_output_chars)) out_of_range
    ok limits

  -- `SuccessSpec(...)`
  unfoldable pub validated_commands :
      List (CheckFields F) → Result SchemaError (List (CheckFields F))
  unfolding validated_check distinct_texts
  validated_commands commands = do
    refuse (length commands == 0) no_commands
    checks ← collect validated_check commands
    let ids = map (λ check. check.id) checks
    refuse (not (length ids == length (distinct_texts ids))) ids_not_unique
    ok checks

  -- `command_count_must_fit_limit`
  unfoldable pub command_count_must_fit_limit : CapsuleFields F → Result SchemaError (Unit {0})
  unfolding text_in
  command_count_must_fit_limit capsule = do
    refuse (ltb capsule.limits.max_commands (length capsule.commands)) too_many_commands
    refuse (not (text_in (codes "command") capsule.tools)) command_not_permitted

  -- `TaskCapsule(...)`
  unfoldable pub validated_capsule : CapsuleFields F → Result SchemaError (CapsuleFields F)
  unfolding matches_id validated_limits validated_sandbox validated_commands
      command_count_must_fit_limit validate_relative_path
  validated_capsule capsule = do
    refuse (not (matches_id capsule.id)) bad_id
    refuse (not (within 1 10000 (length capsule.goal))) bad_goal
    directory ← validate_relative_path capsule.working_directory
    limits ← validated_limits capsule.limits
    sandbox ← validated_sandbox capsule.sandbox
    commands ← validated_commands capsule.commands
    command_count_must_fit_limit capsule
    ok capsule
