-- ===== src/Runner/Classify.antt =====
-- How `run_capsule` of src/e2h/runner.py classifies one command: its `try` statement.
use e2h.Prelude.{
  ℕ, Bool, true, false, String, Option, none, some, List, ◌==◌, text_eq, number_eq, if◌then◌else◌,
}
use e2h.Result.{Result, ok, err, rethrow, ◌>>=◌}
use e2h.Values.Data.{PyRuntime}
use e2h.Failures.{infrastructure_error, impact_eq}
use e2h.Failures.Record.{FailureError, FailureRecord}
use e2h.Failures.Builders.{
  launch_failure, output_capture_failure, sandbox_failure, timeout_failure, unexpected_exit_failure,
}
use e2h.Runner.Process.{
  ProcessOutcome, ProcessTrace, Execution, ran, sandbox_refused, not_started, execute_process,
  clean_up,
}
use e2h.Runner.Results.{CheckStatus, check_status_eq}
use e2h.Runner.Checks.{
  CommandCheck, ExecutionBackend, container, backend_value, RunnerError, missing_exit_code,
  invalid_failure, is_expected, sorted, failed_launch,
}

-- The variables that the branches over one command set.
pub record Classified (F : Type 0) : Type 0 where
  pub status : CheckStatus
  pub outcome : ProcessOutcome
  pub failure : Option (FailureRecord F)
  pub infrastructure_error : Bool

module _ {F : Type 0} (py : PyRuntime F) (decode : List ℕ → List ℕ) where
  -- `failure = ...` with the record that the call returns.
  abbrev pub classified_as :
      CheckStatus
      → ProcessOutcome
      → Bool
      → Result FailureError (FailureRecord F)
      → Result RunnerError (Classified F)
  classified_as status outcome infrastructure result = do
    failure ← rethrow invalid_failure result
    ok (record {
      status = status;
      outcome = outcome;
      failure = some failure;
      infrastructure_error = infrastructure;
    })

  abbrev pub timed_out_as :
      ProcessOutcome → Result FailureError (FailureRecord F) → Result RunnerError (Classified F)
  timed_out_as outcome result = do
    failure ← rethrow invalid_failure result
    ok (record {
      status = CheckStatus.timed_out;
      outcome = outcome;
      failure = some failure;
      infrastructure_error = failure.impact == infrastructure_error;
    })

  -- The `else` of the `try`: the command ran.
  unfoldable pub classify_outcome :
      ExecutionBackend → F → CommandCheck F → ProcessOutcome → Result RunnerError (Classified F)
  unfolding timeout_failure output_capture_failure unexpected_exit_failure backend_value is_expected
      sorted
  classify_outcome backend timeout check outcome =
      if outcome.timed_out
      then timed_out_as outcome
          (timeout_failure py timeout (backend_value backend) outcome.failure_code)
      else elim outcome.error [
        | some message ↦
            classified_as CheckStatus.error outcome true
              (output_capture_failure py (backend_value backend))
        | none ↦
            if is_expected outcome.exit_code check.expected_exit_codes
            then ok (record {
              status = CheckStatus.passed;
              outcome = outcome;
              failure = none;
              infrastructure_error = false;
            })
            else elim outcome.exit_code [
              | none ↦ err missing_exit_code
              | some code ↦
                  classified_as CheckStatus.failed outcome false
                    (unexpected_exit_failure py code (sorted check.expected_exit_codes))
            ]
      ]

  abbrev pub outcome_of : ExecutionBackend → ℕ → ProcessTrace → Option String → ProcessOutcome
  outcome_of container max_output_chars trace cleanup_error =
      clean_up cleanup_error (execute_process decode max_output_chars trace)
  outcome_of _ max_output_chars trace cleanup_error = execute_process decode max_output_chars trace

  -- The `try` statement over one command.
  unfoldable pub classify :
      ExecutionBackend → ℕ → F → CommandCheck F → Execution → Result RunnerError (Classified F)
  unfolding classify_outcome execute_process clean_up sandbox_failure launch_failure backend_value
  classify backend max_output_chars timeout check (ran trace cleanup_error) =
      classify_outcome backend timeout check
        (outcome_of backend max_output_chars trace cleanup_error)
  classify backend max_output_chars timeout check (sandbox_refused message) =
      classified_as CheckStatus.error (failed_launch message) true (sandbox_failure py false)
  classify backend max_output_chars timeout check (not_started e message) =
      classified_as CheckStatus.error (failed_launch message) true
        (launch_failure py e (backend_value backend))
