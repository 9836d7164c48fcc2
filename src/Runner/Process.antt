-- ===== src/Runner/Process.antt =====
-- `_ProcessOutcome`, `_execute_process` and the two commands over it in src/e2h/runner.py. What the
-- operating system answers to a call is an observation, given to the definitions.
use Prim.Native.String.{◌++◌ as append_text}
use e2h.Prelude.{
  ℕ, Bool, true, String, Option, none, some, List, [], ◌∷◌, ◌++◌, ◌==◌, text_eq, ℤ, if◌then◌else◌,
}
use e2h.Failures
use e2h.Failures.{FailureCode}
use e2h.Failures.Builders.{OsError}
use e2h.Runner.Capture.{Stream, new_capture, drain_stream, render}

pub record ProcessOutcome : Type 0 where
  pub exit_code : Option ℤ
  pub timed_out : Bool
  pub stdout : List ℕ
  pub stderr : List ℕ
  pub stdout_truncated : Bool
  pub stderr_truncated : Bool
  pub error : Option String
  pub failure_code : Option FailureCode

-- A started process, as the runner sees it: whether `wait` passed its timeout, whether a reader was
-- alive at the deadline and after the last join, what each stream gave, and `returncode`.
pub record ProcessTrace : Type 0 where
  pub wait_timed_out : Bool
  pub reader_alive_at_deadline : Bool
  pub reader_alive_at_end : Bool
  pub stdout : Stream
  pub stderr : Stream
  pub returncode : Option ℤ

-- `if error` for an error that may be `None`.
abbrev truthy : Option String → List String
truthy none = []
truthy (some message) = if message == "" then [] else message ∷ []

-- `"; ".join(messages)`
unfoldable pub join_errors : List String → String
join_errors [] = ""
join_errors (message ∷ []) = message
join_errors (message ∷ (next ∷ rest)) =
    append_text message (append_text "; " (join_errors (next ∷ rest)))

-- `"; ".join(messages) or None`
unfoldable pub joined_or_none : List String → Option String
unfolding join_errors
joined_or_none messages = if join_errors messages == "" then none else some (join_errors messages)

abbrev timed_out_of : ProcessTrace → Bool
timed_out_of t = if t.wait_timed_out then true else t.reader_alive_at_deadline

module _ (decode : List ℕ → List ℕ) where
  unfoldable pub execute_process : ℕ → ProcessTrace → ProcessOutcome
  unfolding drain_stream render joined_or_none
  execute_process max_output_chars t =
      let stdout_capture = drain_stream t.stdout (new_capture max_output_chars) in
      let stderr_capture = drain_stream t.stderr (new_capture max_output_chars) in
      let timed_out = timed_out_of t in
      let capture_errors =
        truthy stdout_capture.error
        ++ (truthy stderr_capture.error
            ++ (if t.reader_alive_at_end then "output reader did not terminate" ∷ [] else [])) in
      let capture_error = joined_or_none capture_errors in
      record {
        exit_code = if timed_out then none else t.returncode;
        timed_out = timed_out;
        stdout = (render decode stdout_capture).0;
        stderr = (render decode stderr_capture).0;
        stdout_truncated = (render decode stdout_capture).1;
        stderr_truncated = (render decode stderr_capture).1;
        error = capture_error;
        failure_code = elim capture_error [
          | none ↦ none
          | some message ↦ some Failures.output_capture
        ];
      }

-- What starting a command comes to: the process runs, a container's command line is refused, or
-- `Popen` raises. `cleanup_error` is the answer of `force_remove_container`.
pub data Execution : Type 0 where
  ran : ProcessTrace → (cleanup_error : Option String) → Execution
  sandbox_refused : (message : String) → Execution
  not_started : OsError → (message : String) → Execution

-- The end of `_execute_container_command`: a container that timed out is removed.
unfoldable pub clean_up : Option String → ProcessOutcome → ProcessOutcome
unfolding join_errors
clean_up none outcome = outcome
clean_up (some cleanup_error) outcome =
    if outcome.timed_out
    then record outcome {
      error = some (join_errors (truthy outcome.error ++ truthy (some cleanup_error)));
      failure_code = some Failures.sandbox_cleanup;
    }
    else outcome
