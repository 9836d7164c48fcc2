-- ===== src/Runner/Replay.antt =====
-- `run_capsule` of src/e2h/runner.py. What the file system, the clocks and the started processes
-- answer is a parameter or an observation.
pub mod Sound
pub mod Order
pub mod Invariant
pub mod Accepted
pub mod Valid
pub mod Halted
use Prim.Native.String.{◌++◌ as append_text}
use e2h.Prelude.{
  ℕ, suc, Bool, true, false, not, ◌||◌, String, Option, none, some, List, [], ◌∷◌, ◌++◌, map, any,
  ◌==◌, text_eq, number_eq, if◌then◌else◌,
}
use e2h.Result.{Result, ok, err, refuse, rethrow, ◌>>=◌, ◌>>◌}
use e2h.Values.Data.{PyRuntime}
use e2h.Failures.{infrastructure_error, impact_eq}
use e2h.Failures.Record.{FailureError, FailureRecord}
use e2h.Failures.Builders.{
  launch_failure, output_capture_failure, sandbox_failure, skipped_failure, timeout_failure,
  unexpected_exit_failure, working_directory_failure,
}
use e2h.Failures.Summary.{FailureSummary, summarize_failures}
use e2h.Runner.Process.{
  ProcessOutcome, ProcessTrace, Execution, ran, sandbox_refused, not_started, execute_process,
  clean_up,
}
use e2h.Runner.Results.{
  CheckStatus, RunStatus, check_status_eq, Clock, CommandResult, DateTime, validated_result,
  has_not_passed, failure_entry, RunResult, validated_run,
}
use e2h.Runner.Checks.{
  CommandCheck, TaskCapsule, ExecutionBackend, container, backend_value, RunnerError,
  not_a_directory, no_working_directory, missing_blocking_check, missing_exit_code, invalid_failure,
  invalid_result, invalid_summary, ResolvedPath, absolute_text, safe_child, select_backend,
  is_expected, sorted, failed_launch, relative_cwd, timeout_of,
}
use e2h.Runner.Classify.{Classified, classify}

-- What the world answers while one check runs.
pub record Observation (F : Type 0) : Type 0 where
  pub is_directory : Bool
  pub command_started : F
  pub command_finished : F
  pub execution : Execution

-- The variables of the loop.
pub record RunState (F : Type 0) : Type 0 where
  pub results : List (CommandResult F)
  pub halt : Bool
  pub blocked_by_check_id : Option String
  pub infrastructure_error : Bool

abbrev pub run_start : {F : Type 0} → RunState F
run_start = record {
  results = [];
  halt = false;
  blocked_by_check_id = none;
  infrastructure_error = false;
}

abbrev pub run_status : {F : Type 0} → RunState F → RunStatus
run_status s =
    if s.infrastructure_error
    then RunStatus.error
    else if any has_not_passed s.results
    then RunStatus.failed
    else RunStatus.passed

module _ {F : Type 0} (py : PyRuntime F) (decode : List ℕ → List ℕ) where
  module _ (clock : Clock F) where
    -- `results.append(CommandResult(...))`
    abbrev pub append_result : RunState F → CommandResult F → Result RunnerError (RunState F)
    append_result s r = do
      r' ← rethrow invalid_result (validated_result py clock r)
      ok (record s { results = s.results ++ (r' ∷ []) })

    abbrev pub built_result :
        TaskCapsule F → RunState F → FailureSummary → DateTime → DateTime → F → F → RunResult F
    built_result capsule s summary started_at finished_at started_clock finished_clock = record {
      capsule_id = capsule.id;
      status = run_status s;
      started_at = started_at;
      finished_at = finished_at;
      duration_seconds = clock.seconds_between started_clock finished_clock;
      checks = s.results;
      failure_summary = summary;
    }

    -- `_skipped`
    abbrev pub skipped_result : CommandCheck F → String → FailureRecord F → CommandResult F
    skipped_result check cwd failure = record {
      id = check.id;
      argv = check.argv;
      cwd = cwd;
      status = CheckStatus.skipped;
      exit_code = none;
      duration_seconds = clock.zero_seconds;
      stdout = [];
      stderr = [];
      stdout_truncated = false;
      stderr_truncated = false;
      error = some "skipped after an earlier check failed";
      failure = some failure;
    }

    -- The branch after a halt.
    unfoldable pub skipped_check :
        RunState F → CommandCheck F → String → Option String → Result RunnerError (RunState F)
    unfolding validated_result skipped_failure
    skipped_check s check cwd none = err missing_blocking_check
    skipped_check s check cwd (some blocked_by) = do
      failure ← rethrow invalid_failure (skipped_failure py blocked_by)
      append_result s (skipped_result check cwd failure)

    abbrev pub missing_result :
        CommandCheck F → ResolvedPath → String → FailureRecord F → CommandResult F
    missing_result check check_dir cwd failure = record {
      id = check.id;
      argv = check.argv;
      cwd = cwd;
      status = CheckStatus.error;
      exit_code = none;
      duration_seconds = clock.zero_seconds;
      stdout = [];
      stderr = [];
      stdout_truncated = false;
      stderr_truncated = false;
      error = some (append_text "check directory does not exist: " (absolute_text check_dir));
      failure = some failure;
    }

    -- The branch of a check whose directory is missing.
    unfoldable pub directory_missing :
        RunState F → CommandCheck F → ResolvedPath → String → Result RunnerError (RunState F)
    unfolding validated_result working_directory_failure absolute_text
    directory_missing s check check_dir cwd = do
      failure ← rethrow invalid_failure (working_directory_failure py)
      s' ← append_result s (missing_result check check_dir cwd failure)
      ok (record s' {
        infrastructure_error = true;
        blocked_by_check_id = some check.id;
        halt = not check.continue_on_failure;
      })

    abbrev pub command_result :
        CommandCheck F → String → Observation F → Classified F → CommandResult F
    command_result check cwd seen c = record {
      id = check.id;
      argv = check.argv;
      cwd = cwd;
      status = c.status;
      exit_code = c.outcome.exit_code;
      duration_seconds = clock.seconds_between seen.command_started seen.command_finished;
      stdout = c.outcome.stdout;
      stderr = c.outcome.stderr;
      stdout_truncated = c.outcome.stdout_truncated;
      stderr_truncated = c.outcome.stderr_truncated;
      error = c.outcome.error;
      failure = c.failure;
    }

    -- The rest of the loop's body, after the command.
    unfoldable pub record_outcome :
        RunState F
        → CommandCheck F
        → String
        → Observation F
        → Classified F
        → Result RunnerError (RunState F)
    unfolding validated_result
    record_outcome s check cwd seen c = do
      s' ← append_result s (command_result check cwd seen c)
      let infrastructure = s.infrastructure_error || c.infrastructure_error
      if c.status == CheckStatus.passed
          then ok (record s' { infrastructure_error = infrastructure })
          else ok (record s' {
            infrastructure_error = infrastructure;
            blocked_by_check_id = some check.id;
            halt = not check.continue_on_failure;
          })

    -- One iteration of the loop. `resolve` is the file system's.
    module _ (resolve : ResolvedPath → String → Option ResolvedPath) where
      unfoldable pub run_check :
          TaskCapsule F
          → ExecutionBackend
          → ResolvedPath
          → ResolvedPath
          → Observation F
          → RunState F
          → CommandCheck F
          → Result RunnerError (RunState F)
      unfolding safe_child skipped_check directory_missing record_outcome classify relative_cwd
      run_check capsule backend workspace_root task_root seen s check = do
        check_dir ← safe_child resolve task_root check.cwd
        cwd ← relative_cwd workspace_root check_dir
        if s.halt
            then skipped_check s check cwd s.blocked_by_check_id
            else if not seen.is_directory
            then directory_missing s check check_dir cwd
            else classify py decode backend capsule.max_output_chars (timeout_of capsule check)
                check seen.execution
              >>= record_outcome s check cwd seen

      -- The loop over the commands; the iteration at a position sees what that position observes.
      unfoldable pub run_checks :
          TaskCapsule F
          → ExecutionBackend
          → ResolvedPath
          → ResolvedPath
          → (ℕ → Observation F)
          → RunState F
          → List (CommandCheck F)
          → Result RunnerError (RunState F)
      unfolding run_check
      run_checks capsule backend workspace_root task_root observe s [] = ok s
      run_checks capsule backend workspace_root task_root observe s (check ∷ checks) = do
        s' ← run_check capsule backend workspace_root task_root (observe 0) s check
        run_checks capsule backend workspace_root task_root (λ n. observe (suc n)) s' checks

      -- `run_capsule` from the resolved workspace on. The flags say what `is_dir` answers for the
      -- workspace and for the working directory; the clocks are read at the start and at the end.
      unfoldable pub run_capsule :
          TaskCapsule F
          → ExecutionBackend
          → (workspace_root : ResolvedPath) → (workspace_is_dir task_root_is_dir : Bool)
          → (observe : ℕ → Observation F) → (started_at finished_at : DateTime)
          → (started_clock finished_clock : F) → Result RunnerError (RunResult F)
      unfolding safe_child select_backend run_checks
      run_capsule capsule backend workspace_root workspace_is_dir task_root_is_dir observe
            started_at finished_at started_clock finished_clock =
          do
            refuse (not workspace_is_dir) not_a_directory
            task_root ← safe_child resolve workspace_root capsule.working_directory
            refuse (not task_root_is_dir) no_working_directory
            selected ← select_backend backend capsule.has_sandbox
            s ←
                run_checks capsule selected workspace_root task_root observe run_start
                  capsule.commands
            summary ← rethrow invalid_summary (summarize_failures py (map failure_entry s.results))
            rethrow invalid_result (
                validated_run py clock (
                  built_result capsule s summary started_at finished_at started_clock
                    finished_clock))
