-- ===== src/Runner/Checks.antt =====
-- What a replay of src/e2h/runner.py runs on: its checks, its paths, its backends and its errors.
use Prim.Native.String.{◌++◌ as append_text}
use e2h.Prelude.{
  ℕ, Bool, true, false, ◌||◌, leb, String, Option, none, some, List, [], ◌∷◌, ◌==◌, text_eq, ℤ, pos,
  negsuc, number_eq, if◌then◌else◌,
}
use e2h.Result.{Result, ok, err}
use e2h.Failures.{impact_eq}
use e2h.Failures.Record.{FailureError}
use e2h.Failures.Summary.{SummaryError}
use e2h.Runner.Process.{ProcessOutcome}
use e2h.Runner.Results.{check_status_eq, ResultError}

-- `CommandCheck` of src/e2h/models.py, without the fields that the runner only passes on.
pub record CommandCheck (F : Type 0) : Type 0 where
  pub id : String
  pub argv : List String
  pub cwd : String
  pub timeout_seconds : Option F
  pub expected_exit_codes : List ℤ
  pub continue_on_failure : Bool

-- The parts of a `TaskCapsule` that `run_capsule` reads.
pub record TaskCapsule (F : Type 0) : Type 0 where
  pub id : String
  pub working_directory : String
  pub default_timeout_seconds : F
  pub max_output_chars : ℕ
  pub has_sandbox : Bool
  pub commands : List (CommandCheck F)

pub data ExecutionBackend : Type 0 where
  auto local container : ExecutionBackend

-- `.value`
unfoldable pub backend_value : ExecutionBackend → String
backend_value auto = "auto"
backend_value local = "local"
backend_value container = "container"

pub data RunnerError : Type 0 where
  unresolved_path escapes_workspace not_a_directory no_working_directory : RunnerError
  sandbox_required missing_blocking_check missing_exit_code : RunnerError
  invalid_failure : FailureError → RunnerError
  invalid_result : ResultError → RunnerError
  invalid_summary : SummaryError → RunnerError

-- A resolved path, by its parts.
abbrev pub ResolvedPath : Type 0
ResolvedPath = List String

-- `candidate.relative_to(root)`
unfoldable pub relative_to : ResolvedPath → ResolvedPath → Option ResolvedPath
relative_to candidate [] = some candidate
relative_to [] (part ∷ root) = none
relative_to (p ∷ candidate) (part ∷ root) =
    let rest = relative_to candidate root in if p == part then rest else none

-- The text of a relative path, and of an absolute one.
unfoldable pub path_text : ResolvedPath → String
path_text [] = "."
path_text (part ∷ []) = part
path_text (part ∷ (next ∷ rest)) = append_text part (append_text "/" (path_text (next ∷ rest)))

unfoldable pub absolute_text : ResolvedPath → String
unfolding path_text
absolute_text [] = "/"
absolute_text (part ∷ parts) = append_text "/" (path_text (part ∷ parts))

-- `_safe_child`; `resolve` is `(root / relative).resolve()`.
unfoldable pub safe_child :
    (resolve : ResolvedPath → String → Option ResolvedPath)
    → ResolvedPath
    → String
    → Result RunnerError ResolvedPath
unfolding relative_to
safe_child resolve root relative = elim (resolve root relative) [
  | none ↦ err unresolved_path
  | some candidate ↦ elim (relative_to candidate root) [
    | none ↦ err escapes_workspace
    | some parts ↦ ok candidate
  ]
]

-- The selection of the backend.
unfoldable pub select_backend : ExecutionBackend → Bool → Result RunnerError ExecutionBackend
select_backend auto true = ok container
select_backend auto false = ok local
select_backend container true = ok container
select_backend container false = err sandbox_required
select_backend local has_sandbox = ok local

abbrev int_equal : ℤ → ℤ → Bool
int_equal (pos m) (pos n) = m == n
int_equal (negsuc m) (negsuc n) = m == n
int_equal _ _ = false

-- `exit_code in expected_exit_codes`
unfoldable pub is_expected : Option ℤ → List ℤ → Bool
is_expected none codes = false
is_expected (some code) [] = false
is_expected (some code) (c ∷ codes) = int_equal c code || is_expected (some code) codes

abbrev int_leb : ℤ → ℤ → Bool
int_leb (pos m) (pos n) = leb m n
int_leb (pos m) (negsuc n) = false
int_leb (negsuc m) (pos n) = true
int_leb (negsuc m) (negsuc n) = leb n m

unfoldable pub insert_int : ℤ → List ℤ → List ℤ
insert_int c [] = c ∷ []
insert_int c (d ∷ codes) =
    let rest = insert_int c codes in if int_leb c d then c ∷ (d ∷ codes) else d ∷ rest

-- `sorted(codes)`
unfoldable pub sorted : List ℤ → List ℤ
unfolding insert_int
sorted [] = []
sorted (c ∷ codes) = insert_int c (sorted codes)

-- The outcome that stands for an exception of the launch.
abbrev pub failed_launch : String → ProcessOutcome
failed_launch message = record {
  exit_code = none;
  timed_out = false;
  stdout = [];
  stderr = [];
  stdout_truncated = false;
  stderr_truncated = false;
  error = some message;
  failure_code = none;
}

-- `str(check_dir.relative_to(workspace_root)) or "."`
unfoldable pub relative_cwd : ResolvedPath → ResolvedPath → Result RunnerError String
unfolding relative_to path_text
relative_cwd workspace_root check_dir = elim (relative_to check_dir workspace_root) [
  | none ↦ err escapes_workspace
  | some parts ↦ ok (path_text parts)
]

-- `check.timeout_seconds or capsule.limits.default_timeout_seconds`; a timeout is above zero.
abbrev pub timeout_of : {F : Type 0} → TaskCapsule F → CommandCheck F → F
timeout_of capsule check = elim check.timeout_seconds [
  | none ↦ capsule.default_timeout_seconds
  | some seconds ↦ seconds
]
