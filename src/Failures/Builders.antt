-- ===== src/Failures/Builders.antt =====
-- The constructors of failure records in src/e2h/failures.py.
use e2h.Prelude.{
  ℕ, Bool, true, false, ◌||◌, String, Option, none, some, List, [], ◌∷◌, ℤ, pos, negsuc,
  is_negative, magnitude, eqb, if◌then◌else◌,
}
use e2h.Result.{Result}
use e2h.Values.Data.{int, float, str, list, Items, nil, cons, Entries, end, entry, text, PyRuntime}
use e2h.Failures
use e2h.Failures.{
  FailureCategory, FailureCode, FailureImpact, evaluation_failure, infrastructure_error,
  not_evaluated, Retryability, never, maybe, after_fix, unknown,
}
use e2h.Failures.Record.{FailureError, FailureRecord, validated_record}

-- The class of an `OSError`, as `isinstance` sees it, and its `errno`.
pub data OsErrorClass : Type 0 where
  file_not_found permission_error other_os_error : OsErrorClass

pub record OsError : Type 0 where
  pub class : OsErrorClass
  pub errno : Option ℤ

-- `errno.ENOENT`, `errno.EACCES`, `errno.EPERM`
unfoldable pub errno_is : Option ℤ → ℕ → Bool
errno_is none number = false
errno_is (some (pos n)) number = eqb n number
errno_is (some (negsuc n)) number = false

unfoldable pub is_not_found : OsError → Bool
unfolding errno_is
is_not_found e = elim e.class [ OsErrorClass.file_not_found ↦ true | _ ↦ errno_is e.errno 2 ]

unfoldable pub is_denied : OsError → Bool
unfolding errno_is
is_denied e = elim e.class [
  | OsErrorClass.permission_error ↦ true
  | _ ↦ errno_is e.errno 13 || errno_is e.errno 1
]

unfoldable pub int_items : {F : Type 0} → List ℤ → Items F
int_items [] = nil
int_items (n ∷ ns) = cons (int n) (int_items ns)

module _ {F : Type 0} (py : PyRuntime F) where
  abbrev Raises : Type 0
  Raises = Result FailureError (FailureRecord F)

  -- `_record`
  unfoldable pub make_record :
      FailureCategory
      → FailureCode
      → FailureImpact
      → Retryability
      → String
      → Entries F
      → Option String
      → List FailureCode
      → Raises
  make_record category code impact retryability summary details caused_by causes =
      validated_record py (record {
        category = category;
        code = code;
        impact = impact;
        retryability = retryability;
        summary = summary;
        details = details;
        caused_by_check_id = caused_by;
        causes = causes;
      })

  unfoldable pub exit_details : ℤ → List ℤ → Entries F
  exit_details actual expected =
      entry (text "actual_exit_code") (int actual)
        (entry (text "expected_exit_codes") (list (int_items expected)) end)

  unfoldable pub unexpected_exit_failure : ℤ → List ℤ → Raises
  unexpected_exit_failure actual expected =
      if is_negative actual
      then make_record Failures.task Failures.signal_termination evaluation_failure never
          "command was terminated by a signal"
          (entry (text "signal") (int (pos (magnitude actual))) (exit_details actual expected)) none
          []
      else make_record Failures.task Failures.unexpected_exit evaluation_failure never
          "command returned an unexpected exit code" (exit_details actual expected) none []

  unfoldable pub timeout_details : F → String → Entries F
  timeout_details seconds backend =
      entry (text "timeout_seconds") (float seconds) (entry (text "backend") (str backend) end)

  unfoldable pub timeout_failure : F → String → Option FailureCode → Raises
  timeout_failure seconds backend (some Failures.sandbox_cleanup) =
      make_record Failures.sandbox Failures.sandbox_cleanup infrastructure_error after_fix
        "timed-out container could not be cleaned up safely" (timeout_details seconds backend) none
        (Failures.timeout ∷ [])
  timeout_failure seconds backend (some Failures.output_capture) =
      make_record Failures.observability Failures.output_capture infrastructure_error after_fix
        "command timed out and output capture became unreliable" (timeout_details seconds backend)
        none (Failures.timeout ∷ [])
  timeout_failure seconds backend _ =
      make_record Failures.resource Failures.timeout evaluation_failure maybe
        "command exceeded its declared time budget" (timeout_details seconds backend) none []

  unfoldable pub output_capture_failure : String → Raises
  output_capture_failure backend =
      make_record Failures.observability Failures.output_capture infrastructure_error after_fix
        "command output could not be captured reliably" (entry (text "backend") (str backend) end)
        none []

  unfoldable pub working_directory_failure : Raises
  working_directory_failure =
      make_record Failures.environment Failures.working_directory_missing infrastructure_error
        after_fix "declared check working directory does not exist" end none []

  unfoldable pub sandbox_failure : Bool → Raises
  sandbox_failure configuration =
      make_record Failures.sandbox
        (if configuration then Failures.sandbox_configuration else Failures.sandbox_runtime)
        infrastructure_error after_fix
        (if configuration
          then "sandbox configuration is incomplete"
          else "sandbox runtime could not execute the check")
        end none []

  unfoldable pub launch_details : OsError → String → Entries F
  launch_details e backend =
      entry (text "backend") (str backend)
        (elim e.errno [ none ↦ end | some number ↦ entry (text "errno") (int number) end ])

  unfoldable pub launch_failure : OsError → String → Raises
  launch_failure e backend =
      if is_not_found e
      then make_record Failures.dependency Failures.command_not_found infrastructure_error after_fix
          "command executable was not found" (launch_details e backend) none []
      else if is_denied e
      then make_record Failures.environment Failures.permission_denied infrastructure_error
          after_fix "command could not be started because permission was denied"
          (launch_details e backend) none []
      else make_record Failures.environment Failures.process_launch_error infrastructure_error
          unknown "command process could not be started" (launch_details e backend) none []

  unfoldable pub skipped_failure : String → Raises
  skipped_failure blocked_by_check_id =
      make_record Failures.control_flow Failures.skipped_after_failure not_evaluated after_fix
        "check was skipped after an earlier check failed" end (some blocked_by_check_id) []
